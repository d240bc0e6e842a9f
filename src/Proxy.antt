-- ===== src/Proxy.antt =====
-- scripts/quick_client.py: the proxy that carries WireGuard's datagrams to the server.
pub mod Bits
pub mod Window
pub mod Packets
pub mod Decoys
pub mod Handshake
pub mod Firewall
mod Tests
