-- ===== src/Book/Isolation.antt =====
-- What an event can touch: the book of its own symbol only, and never its stale bit back to false.
mod Writes
mod Events
pub use Writes.{Touches, mark_stale-Touches}
unfoldable pub use Events.*
