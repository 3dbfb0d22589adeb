-- ===== src/Planners.antt =====
-- Planners of src/smoking_data/planners.
pub mod Cohorts
pub mod Dirty
