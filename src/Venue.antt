-- ===== src/Venue.antt =====
-- host/pymodel/venue.py: the global session state and the overrides of each symbol.
pub mod Defs
pub mod Gate
mod Tests
