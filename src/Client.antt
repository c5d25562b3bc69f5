-- ===== src/Client.antt =====
-- crates/hawse-core/src/client: the private side of the tunnel.
pub mod Race
pub mod Backoff
pub mod Udp
pub mod Events
pub mod Rebind
pub mod Session
pub mod Dial
pub mod Failure
pub mod Retry
pub mod Visitor
