-- ===== src/Tunnel.antt =====
-- internal/tunnel: the process of cloudflared, and the tunnel that it serves.
pub mod Process
pub mod Restart
pub mod Stopped
pub mod Manager
mod Tests
