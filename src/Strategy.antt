-- ===== src/Strategy.antt =====
-- host/pymodel/strategy.py: the strategy engine.
pub mod State
pub mod Primitives
pub mod Engine
pub mod Gates
pub mod Decisions
pub mod Firing
pub mod Runs
pub mod Pacing
pub mod Returns
pub mod Position
pub mod Totals
pub mod Resting
mod Tests
