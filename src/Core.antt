-- ===== src/Core.antt =====
-- The pure planning code of src/smoking_data/core.
pub mod CostModel
pub mod Operations
pub mod ExecutionPlan
pub mod Optimizer
pub mod PipelineDag
pub mod PhysicalPlan
