-- ===== src/Tests.antt =====
-- Concrete runs: stand-ins for what lies outside the repository, tests of the definitions, and the
-- theorems applied to concrete inputs.
mod Mock
mod Node
mod Oracle
mod OracleWorker
mod Numbers
mod Service
mod Chain
mod Parse
mod Round
mod Concurrent
mod Json
mod Benchmarks
mod Whole
