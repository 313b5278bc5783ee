-- ===== src/Slimproto.antt =====
-- slimproto.c: the connection to the server.
pub mod Receive
pub mod Framing
pub mod Message
pub mod State
pub mod Pass
pub mod Update
pub mod Once
pub mod Packets
pub mod Strm
pub mod Handlers
pub mod Process
pub mod Safe
mod Tests
