-- ===== src/Server.antt =====
-- aegs_server.py: the state of AegsServer, its packet handler and its stream workers.
pub mod State
pub mod Handshake
pub mod Payload
pub mod Packet
pub mod Streams
pub mod Quiet
pub mod Laws
pub mod Resumption
mod Tests
