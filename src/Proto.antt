-- ===== src/Proto.antt =====
-- The crate hawse-proto: what travels between client and server.
pub mod Record
pub mod Port
pub mod Name
pub mod Key
pub mod Msg
pub mod Frame
pub mod Packet
pub mod Proxy
