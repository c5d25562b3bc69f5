-- ===== src/Server.antt =====
-- crates/hawse-core/src/server: the public side of the tunnel.
pub mod Ports
pub mod Udp
pub mod Policy
pub mod Open
pub mod Serve
pub mod Greet
pub mod Limiter
pub mod Session
