-- ===== src/System.antt =====
-- host/pymodel: the book, the venue and the strategy together, as host/pymodel/model.py chains
-- them: an event goes to the book, and its top to the strategy with the venue state.
pub mod Safety
mod Tests
