-- ===== src/Lib.antt =====
-- hawse is a tunnel: a client behind a firewall keeps one connection to a public server, and the
-- server opens ports for it and carries each visitor of a port to the client over a stream or, for
-- UDP, in packets. This library models the parts that decide, in the crates crates/hawse-proto (the
-- wire) and crates/hawse-core (server, client and transports).
--
-- - Proto: crates/hawse-proto/src. Record is record.rs, the headers of stream records; Port is
--   port.rs, with Port/Text for the parsers; Name is name.rs; Key is key.rs; Msg is msg.rs; Frame is
--   frame.rs, Packet is packet.rs and Proxy is proxy.rs.
-- - Udp: crates/hawse-core/src/udp.rs, the sender that both ends share.
-- - Records: crates/hawse-core/src/transport/records.rs. Reader is `RecordReader` and Writer is
--   `RecordWriter`; Meaning says what bytes mean without any of their states, and Turns, Refinement, Calls
--   and Stream relate the two.
-- - Allow: crates/hawse-core/src/allow.rs.
-- - Transport: the close reasons of crates/hawse-core/src/transport/mod.rs.
-- - Server: crates/hawse-core/src/server. Ports is ports.rs, Udp/Table is udp/table.rs, Policy is
--   policy.rs and Limiter is limiter.rs. session.rs is Greet (`run` and `Claim`), Open
--   (`Session::open`), Session (`Session::bind`), Session/Stop (`unbind`, `regrant` and the end of a
--   service's task) and Serve (the loop of `Session::serve`). A session takes ports of the allocator
--   by Open, checks them by Policy and the visitors' lists by Allow, and Serve calls all of it.
--   Udp/Service is `UdpService` of udp/mod.rs, with its `inbound`, `deliver` and `demux`; it uses the
--   table, Allow, Packet and the sender.
-- - Traffic: crates/hawse-core/src/traffic.rs, the meters of a client's services and the calls on them,
--   with Traffic/Tally for what the calls add up to.
-- - Client: crates/hawse-core/src/client. Race is race.rs, Backoff is backoff.rs, Udp is `UdpLocal` of
--   udp.rs and Visitor is visitor.rs. mod.rs is Rebind (`bind`, `rebind`), Session (`Services`, `heard`,
--   `reexpose` and `register_bound`) with Session/Loop for the loop of `serve`, Dial (`dial_each`),
--   Failure (`ClientError`) and Retry (`classify`, `versioned` and `run`).
-- - Tunnel: the UDP services of server and client together.
-- - Base: lists, dictionaries, sets, addresses and texts, and the tests on numbers.
-- - Examples: the theorems at concrete inputs.
--
-- Numbers are natural; a field of w bits keeps its wrap-around as `% 2 ^ w`. Texts are lists of code
-- points, bytes are numbers, times are numbers on one clock. Maps are association lists, asked only by
-- key, but for the order in which a reload tells of services, which is that of the list. A stream
-- below a reader or writer is the list of what its polls give or take. The crates ipnet, base64 and
-- postcard, floating-point numbers, and the answer of the host to a bind come in as parameters, with what the
-- code relies on as named hypotheses.
--
-- Fuel: `poll_read` has eight rounds, more than a header and its data take before a return. The walk
-- of `open` has a turn more than the pool has numbers, since each turn claims one that was free.
-- `claim_id` has a turn more than the table has sessions. Each is proved enough.
--
-- Steps: what a task does between two waits is one step. Where `deliver` of the client waits for a
-- socket, it is two steps, and the second starts from any table that other tasks may have left. The
-- counts that a sender shares with its service are kept in the sender.
--
-- Not modelled: the I/O and the tasks around these parts (sockets, QUIC, TLS, yamux, timeouts, frames on
-- a stream), the greeting of the client, its calls of the traffic counters and its registry of UDP
-- services with their bulk streams, configuration files, and the command line program in crates/hawse.
pub mod Base
pub mod Proto
pub mod Records
pub mod Server
pub mod Allow
pub mod Transport
pub mod Udp
pub mod Traffic
pub mod Client
pub mod Tunnel
mod Examples
