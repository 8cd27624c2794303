-- ===== src/Sse/Event.antt =====
-- ext/sse/event.go and reader.go: events as text, and reading them back.
mod Numbers
mod Defs
mod Lines
mod RoundTrip
mod Tests
unfoldable pub use Numbers.*
unfoldable pub use Defs.*
