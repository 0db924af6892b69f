-- ===== src/Blockchain.antt =====
-- src/blockchain.
pub mod Types
pub mod Env
pub mod Chain
pub mod Tests
