-- ===== src/Tunnel.antt =====
-- The two ends together: aegs_client.py and aegs_server.py over the same token.
pub mod Opening
pub mod Accept
pub mod Handshake
pub mod Uplink
pub mod Connect
pub mod Downlink
mod Ends
mod Tests
mod ConnectTests
