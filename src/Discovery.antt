-- ===== src/Discovery.antt =====
-- internal/discovery: what is found on the network and what runs in Docker.
pub mod Target
pub mod Container
pub mod Docker
pub mod Scan
pub mod Hosts
pub mod Probe
pub mod Arp
pub mod ScanState
pub mod Signatures
mod Tests
