-- ===== src/Csrf.antt =====
-- ext/csrf/: tokens in cookies, and the middleware that wants them.
mod Defs
mod Token
mod Tests
unfoldable pub use Defs.*
