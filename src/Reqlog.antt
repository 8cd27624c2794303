-- ===== src/Reqlog.antt =====
-- ext/reqlog/: the lines of the request log.
mod Defs
mod Escape
mod Tests
unfoldable pub use Defs.*
