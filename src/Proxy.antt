-- ===== src/Proxy.antt =====
-- ext/proxyproto/: the PROXY protocol in front of a connection.
mod Defs
mod V2
mod V1
mod Conn
mod RoundTrip2
mod RoundTrip1
mod Ends
mod Passed
mod Tests
unfoldable pub use Defs.*
unfoldable pub use V2.*
unfoldable pub use V1.*
unfoldable pub use Conn.*
