-- ===== src/Node/Service.antt =====
-- node/src/service.rs: how a node is put together from the Substrate libraries.
pub mod Types
pub mod Partial
pub mod Full
pub mod Light
pub mod Plan
pub mod Expected
