-- ===== src/Watcher.antt =====
-- fsnotify/: the polling watcher of a file system.
mod Defs
mod Walks
mod Sweep
mod Reach
mod Check
mod Tests
unfoldable pub use Defs.*
