-- ===== src/P2p/Network.antt =====
-- src/p2p/network.rs: what a node does with the messages, the blocks and the sockets.
pub mod Context
pub mod Stream
pub mod Blocks
pub mod Handle
pub mod Loop
pub mod Laws
pub mod Kept
pub mod Events
pub mod Rounds
pub mod Bans
pub mod Online
pub mod Received
pub mod Sync
pub mod Stalls
pub mod Framing
pub mod Cut
