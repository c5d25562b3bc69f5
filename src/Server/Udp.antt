-- ===== src/Server/Udp.antt =====
-- crates/hawse-core/src/server/udp: the UDP services of the server.
pub mod Table
pub mod Service
