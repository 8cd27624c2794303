-- ===== src/Sse.antt =====
-- ext/sse/: server-sent events.
pub mod Event
pub mod Server
