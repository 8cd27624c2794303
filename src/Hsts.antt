-- ===== src/Hsts.antt =====
-- ext/hsts/: the header for secure requests, and the redirect of all others.
mod Defs
mod Tests
unfoldable pub use Defs.*
