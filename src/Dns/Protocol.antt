-- ===== src/Dns/Protocol.antt =====
-- src/dns/protocol.rs: records, headers, questions and packets.
pub mod Types
pub mod Record
pub mod Header
pub mod Packet
pub mod Codes
pub mod Flags
pub mod RoundTrip
pub mod Records
pub mod Written
pub mod Sections
pub mod Fitting
pub mod Parts
pub mod Sent
pub mod Whole
