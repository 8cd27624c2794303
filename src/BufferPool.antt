-- ===== src/BufferPool.antt =====
-- buffer_pool.go: a pool of buffers.
mod Defs
mod Clean
mod Tests
unfoldable pub use Defs.*
