-- ===== src/P2p.antt =====
-- src/p2p: the peers of a node and the messages that they send.
pub mod Addr
pub mod Message
pub mod Peer
pub mod Peers
pub mod Network
mod Tests
