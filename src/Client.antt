-- ===== src/Client.antt =====
-- aegs_client.py: the handshake, the packets and the streams of AegsClient.
pub mod State
pub mod Handshake
pub mod Packets
pub mod Socks
pub mod SystemProxy
pub mod Http
mod Tests
