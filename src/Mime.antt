-- ===== src/Mime.antt =====
-- mime.go, and the Accept header of context.go.
mod Defs
mod Accept
mod Tests
unfoldable pub use Defs.*
pub use Accept.*
