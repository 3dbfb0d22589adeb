-- ===== src/Runtime/Scheduler.antt =====
-- src/smoking_data/runtime/scheduler.py: the loading of a schedule, cron expressions, the due
-- occurrence of a schedule, its claim in the state database, the run of its targets, and the tick over
-- all schedules.
pub mod Cron
pub mod CronValues
pub mod Store
pub mod Load
pub mod Due
pub mod Claim
pub mod Targets
pub mod Tick
mod Examples
