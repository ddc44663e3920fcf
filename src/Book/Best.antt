-- ===== src/Book/Best.antt =====
-- The published top of book is the best price of the live orders.
mod Levels
mod Orders
pub use Levels.*
pub use Orders.*
