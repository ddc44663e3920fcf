-- ===== src/Book/Consistency.antt =====
-- Every book operation keeps the order map and the price levels in agreement.
mod Grow
mod Shrink
mod Quiet
mod Steps
mod Reduce
mod Replace
mod Whole
pub use Quiet.*
pub use Steps.*
pub use Reduce.*
pub use Replace.*
pub use Whole.*
