-- ===== src/Htmx.antt =====
-- ext/htmx/helpers.go and WriteHeader of htmx.go: what htmx asks with, and is answered with.
mod Defs
mod Tests
