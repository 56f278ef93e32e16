-- ===== src/Node.antt =====
-- node/src: the chains that the node comes with, its services and its commands.
pub mod ChainSpec
pub mod Rpc
pub mod Service
pub mod Command
