-- ===== src/ExampleOcw.antt =====
-- pallets/example-offchain-worker/src/lib.rs: a price oracle fed by off-chain workers.
pub mod Types
pub mod Prices
pub mod Calls
pub mod Validity
pub mod Chain
pub mod Parse
pub mod Fetch
pub mod Worker
