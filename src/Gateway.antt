-- ===== src/Gateway.antt =====
-- aegs_tunnel_gateway.py: the gateway's server and its client.
pub mod Wire
pub mod Server
pub mod Client
pub mod Socks
pub mod Taken
pub mod Laws
pub mod Greeting
pub mod Meet
pub mod Parts
pub mod Carry
mod Tests
