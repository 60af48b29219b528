-- ===== src/Dnssd.antt =====
-- src/dnssd.rs: AltServer published as ordinary DNS records, over UDP.
pub mod Name
pub mod Zone
pub mod Message
pub mod Listen
mod Tests
