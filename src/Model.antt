-- ===== src/Model.antt =====
-- host/pymodel/model.py: the golden model, which feeds packets and messages to the book, the venue
-- state and the strategy.
pub mod Filter
pub mod State
pub mod Dispatch
pub mod Step
pub mod Packet
pub mod Recovery
pub mod Gaps
pub mod Outages
mod Tests
