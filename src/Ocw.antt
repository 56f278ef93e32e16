-- ===== src/Ocw.antt =====
-- pallets/ocw/src/lib.rs: a list of recent numbers, filled by off-chain workers.
pub mod Types
pub mod Numbers
pub mod Calls
pub mod Validity
pub mod Fetch
pub mod Json
pub mod Worker
