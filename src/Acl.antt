-- ===== src/Acl.antt =====
-- ext/acl/: access control by hosts, networks and countries, its configuration file and its watcher.
mod Options
mod Access
mod Config
mod Admission
mod Turned
mod OnePass
mod Document
mod Watch
mod Reload
mod Tests
unfoldable pub use Options.*
unfoldable pub use Access.*
unfoldable pub use Config.*
