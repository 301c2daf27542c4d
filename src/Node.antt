-- ===== src/Node.antt =====
-- node/src: the programs around the runtime.
pub mod Outcome
pub mod ChainSpec
pub mod Command
pub mod Sdk
pub mod Rpc
pub mod Service
