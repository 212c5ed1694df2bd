-- ===== src/Cf.antt =====
-- internal/cf: the Cloudflare client.
pub mod Act
pub mod Api
pub mod Client
pub mod Dns
pub mod Ingress
pub mod Tunnel
pub mod Tests
