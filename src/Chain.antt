-- ===== src/Chain.antt =====
-- code/blockchain.go: blocks, their validity, the chain that a peer keeps, and mining.
pub mod Platform
pub mod Block
pub mod Ledger
pub mod Mining
mod Tests
