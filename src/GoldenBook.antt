-- ===== src/GoldenBook.antt =====
-- tb/common/golden_book.py: the reference order book of the test benches, driven by raw ITCH bytes.
pub mod State
pub mod Apply
pub mod Query
pub mod Laws
pub mod Agreement
pub mod Messages
pub mod Audit
pub mod Twin
mod Tests
