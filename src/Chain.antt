-- ===== src/Chain.antt =====
-- l4-proxy/chain-setup.go: the messages between the proxies of a service chain, and setting one up.
pub mod Message
pub mod Link
pub mod Serving
pub mod Setup
pub mod Accept
pub mod Monitor
pub mod Forward
pub mod Clients
mod Tests
