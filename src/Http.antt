-- ===== src/Http.antt =====
-- The parts of net/http that the program reads and writes, and response_writer_std.go.
mod Defs
mod Writer
mod Tests
unfoldable pub use Defs.*
unfoldable pub use Writer.*
