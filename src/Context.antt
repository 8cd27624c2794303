-- ===== src/Context.antt =====
-- context.go: which viewer renders a result, redirects and referers.
mod View
mod Redirect
mod Negotiation
mod Htmx
mod Tests
unfoldable pub use View.*
unfoldable pub use Redirect.*
pub use Negotiation.*
pub use Htmx.*
