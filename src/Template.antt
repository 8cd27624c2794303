-- ===== src/Template.antt =====
-- template_html.go and viewengine_html.go: templates that know which others they are built from.
mod Store
mod Load
mod Engine
mod Text
mod Names
mod Evolve
mod Follow
mod Events
mod Links
mod Registers
mod Tests
unfoldable pub use Store.*
unfoldable pub use Load.*
unfoldable pub use Engine.*
