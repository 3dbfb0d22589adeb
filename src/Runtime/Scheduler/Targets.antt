-- ===== src/Runtime/Scheduler/Targets.antt =====
-- `_run_targets_sequentially` and `_write_target_result` of src/smoking_data/runtime/scheduler.py. The
-- executor is a parameter over a world that it may change; the times of start and end are left out.
pub mod Laws
pub mod Rows
use smoking_data.Prelude.{
  ℕ, suc, String, Bool, true, false, not, ◌&&◌, Option, none, some, List, [], ◌∷◌, ◌==◌,
  if◌then◌else◌, str_eq,
}
use smoking_data.Runtime.Scheduler.Store.{
  ScheduleTarget, ScheduleSpec, TargetKind, TargetStatus, success, failed, blocked, TargetResult,
}

-- What a call of the executor ends in; a missing value of the payload is `none`.
pub data Execution : Type 0 where
  payload : (ok : Bool) (run_id error_type error_message : Option String) → Execution
  raised : (error_type error_message : String) → Execution

-- A row of the table `occurrence_targets`: the occurrence's key and the result.
abbrev pub TargetRows : Type 0
TargetRows = List (String × TargetResult)

-- The primary key is the occurrence's key and the target's index.
abbrev pub same_target : String → ℕ → String × TargetResult → Bool
same_target key index (row_key, r) = str_eq row_key key && (r.index == index)

-- `INSERT OR REPLACE INTO occurrence_targets`
unfoldable pub write_target_result : String → TargetResult → TargetRows → TargetRows
write_target_result key result [] = (key, result) ∷ []
write_target_result key result (row ∷ rows) =
    let later = write_target_result key result rows in
    if same_target key result.index row then (key, result) ∷ rows else row ∷ later

unfoldable pub find_target : String → ℕ → TargetRows → Option TargetResult
find_target key index [] = none
find_target key index (row ∷ rows) =
    let later = find_target key index rows in
    if same_target key index row then some row.1 else later

-- `str(value or default)`
abbrev pub text_or : Option String → String → String
text_or none default = default
text_or (some s) default = if str_eq s "" then default else s

abbrev pub with_outcome :
    ℕ → ScheduleTarget → TargetStatus → Option String → Option String → Option String → TargetResult
with_outcome index target status run_id error_type error_message = record {
  index = index;
  alias = target.alias;
  target_key = target.target_key;
  kind = target.kind;
  definition = target.definition;
  status = status;
  run_id = run_id;
  error_type = error_type;
  error_message = error_message;
}

abbrev pub blocked_target : ℕ → ScheduleTarget → TargetResult
blocked_target index target =
    with_outcome index target blocked none (some "UpstreamScheduledTargetFailure")
      (some "A previous scheduled target failed.")

unfoldable pub target_result : ℕ → ScheduleTarget → Execution → TargetResult
target_result index target (payload true run_id error_type error_message) =
    with_outcome index target success run_id none none
target_result index target (payload false run_id error_type error_message) =
    with_outcome index target failed run_id (some (text_or error_type "ScheduledRunFailure"))
      (some (text_or error_message "Scheduled target failed."))
target_result index target (raised error_type error_message) =
    with_outcome index target failed none (some error_type) (some error_message)

abbrev pub is_failed : TargetStatus → Bool
is_failed failed = true
is_failed _ = false

module _ {World : Type 0} (executor : World → ScheduleTarget → Execution × World)
    (key : String) where
  -- The loop over the targets from `index` on.
  unfoldable pub run_targets :
      Bool → ℕ → List ScheduleTarget → TargetRows → World → List TargetResult × (TargetRows × World)
  unfolding target_result write_target_result
  run_targets stopped index [] rows world = ([], (rows, world))
  run_targets true index (target ∷ targets) rows world =
      let result = blocked_target index target in
      let (results, rest) =
        run_targets true (suc index) targets (write_target_result key result rows) world in
      (result ∷ results, rest)
  run_targets false index (target ∷ targets) rows world =
      let (execution, world') = executor world target in
      let result = target_result index target execution in
      let (results, rest) =
        run_targets (is_failed result.status) (suc index) targets
          (write_target_result key result rows) world' in
      (result ∷ results, rest)

  unfoldable pub run_targets_sequentially :
      List ScheduleTarget → TargetRows → World → List TargetResult × (TargetRows × World)
  unfolding run_targets
  run_targets_sequentially targets rows world = run_targets false 0 targets rows world
