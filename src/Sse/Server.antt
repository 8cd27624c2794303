-- ===== src/Sse/Server.antt =====
-- ext/sse/server.go and client.go: the server's clients and their connections.
mod Defs
mod Keeps
mod Reach
mod Leaves
mod Sweep
mod Closed
mod Tests
unfoldable pub use Defs.*
