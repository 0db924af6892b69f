-- ===== src/Dns.antt =====
-- src/dns.
pub mod Buffer
pub mod Protocol
pub mod Cache
pub mod Filter
pub mod Hosts
pub mod Authority
pub mod Resolve
pub mod Server
pub mod Start
pub mod Client
mod Tests
