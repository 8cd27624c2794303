-- ===== src/Cookie.antt =====
-- ext/cookie/cookie.go: encoded and signed cookies.
mod Defs
mod Signed
mod Bounds
mod Tests
unfoldable pub use Defs.*
