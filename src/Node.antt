-- ===== src/Node.antt =====
-- The collator node: node/src.
pub mod ChainSpec
pub mod Genesis
pub mod Launch
pub mod Cli
pub mod Relay
pub mod Command
pub mod Service
pub mod Whole
pub mod Rpc
