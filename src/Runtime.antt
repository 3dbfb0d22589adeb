-- ===== src/Runtime.antt =====
-- The run-time services of src/smoking_data/runtime.
pub mod AssetChain
pub mod Yaml
pub mod Scheduler
pub mod Transactions
pub mod ProbeRanges
