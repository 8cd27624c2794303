-- ===== src/Cache.antt =====
-- ext/cache/: the Cache-Control header by rules over paths.
mod Defs
mod FirstRule
mod Tests
unfoldable pub use Defs.*
