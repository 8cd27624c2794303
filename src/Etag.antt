-- ===== src/Etag.antt =====
-- etag.go: conditional requests.
mod Defs
mod Scan
mod Total
mod Listed
mod Answer
mod Tests
unfoldable pub use Defs.*
pub use Total.*
pub use Listed.*
pub use Answer.*
