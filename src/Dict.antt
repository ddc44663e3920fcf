-- ===== src/Dict.antt =====
-- Python dicts with integer keys, as association lists in insertion order.
mod Defs
mod Laws
mod Sums
mod Extremes
pub use Defs.*
pub use Laws.*
pub use Sums.*
pub use Extremes.*
