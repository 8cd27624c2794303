-- ===== src/Pattern.antt =====
-- pattern.go: from a file's name to a ServeMux pattern, and a pattern's parts.
mod Defs
pub mod Panics
pub mod RoundTrip
mod Tests
unfoldable pub use Defs.*
