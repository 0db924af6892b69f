-- ===== src/Blockchain/Chain.antt =====
-- src/blockchain/chain.rs: the store, the operations that change it, and the check of a block.
pub mod State
pub mod Queries
pub mod Signers
pub mod Check
pub mod Update
pub mod Mining
pub mod Store
pub mod Keeps
pub mod Accepted
pub mod Integrity
pub mod Growth
pub mod Identity
pub mod Selection
pub mod Termination
pub mod Probes
pub mod Replace
pub mod Unguarded
pub mod Offered
pub mod Forked
