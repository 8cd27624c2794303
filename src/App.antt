-- ===== src/App.antt =====
-- app.go, group.go, routing.go, routing_option.go: the application and its routes.
mod Defs
mod Chain
mod Routes
mod Serve
mod View
mod Order
mod Table
mod Answers
mod Options
mod Tests
unfoldable pub use Defs.*
unfoldable pub use Chain.*
unfoldable pub use Routes.*
unfoldable pub use Serve.*
unfoldable pub use View.*
