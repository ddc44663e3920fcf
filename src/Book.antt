-- ===== src/Book.antt =====
-- host/pymodel/book.py: the order-based book. `State` has its data, `Levels` the level arithmetic,
-- `Apply` one function per book operation, and `Top` the published top of book.
pub mod State
pub mod Levels
pub mod Apply
pub mod Top
pub mod Aggregate
pub mod Frame
pub mod Consistency
pub mod Best
pub mod Isolation
pub mod Orders
pub mod Faults
mod Tests
