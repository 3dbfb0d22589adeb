-- ===== src/Runtime/Scheduler/Targets/Laws.antt =====
-- The results of the targets of an occurrence, and their rows.
use smoking_data.Prelude.{
  ℕ, suc, ◌⊎◌, ◌≡◌, refl, true, false, String, Option, List, [], ◌∷◌, inl, inr,
}
use smoking_data.Runtime.Scheduler.Store.{ScheduleTarget, success, failed, blocked, TargetResult}
use smoking_data.Runtime.Scheduler.Targets.{
  Execution, payload, raised, TargetRows, write_target_result, blocked_target, target_result,
  run_targets, run_targets_sequentially,
}

-- The result is about the target and has its place in the list.
abbrev pub IsResultOf : ℕ → ScheduleTarget → TargetResult → Type 0
IsResultOf index target r =
    (r.index ≡ index) × (r.alias ≡ target.alias) × (r.target_key ≡ target.target_key)

-- Every target is blocked.
pub data IsBlocked : ℕ → List ScheduleTarget → List TargetResult → Type 0 where
  done : (index : ℕ) → IsBlocked index [] []
  blocks :
      (index : ℕ) (target : ScheduleTarget) (r : TargetResult) (targets : List ScheduleTarget)
      (rs : List TargetResult)
      → IsResultOf index target r
      → r.status ≡ blocked
      → IsBlocked (suc index) targets rs
      → IsBlocked index (target ∷ targets) (r ∷ rs)

-- The executor returned a payload whose `ok` is true.
pub data IsWell : Execution → Type 0 where
  well :
      (run_id error_type error_message : Option String)
      → IsWell (payload true run_id error_type error_message)

-- The executor returned a payload whose `ok` is false, or it raised.
pub data IsUnwell : Execution → Type 0 where
  refused :
      (run_id error_type error_message : Option String)
      → IsUnwell (payload false run_id error_type error_message)
  threw : (error_type error_message : String) → IsUnwell (raised error_type error_message)

-- The targets from an index on succeed, each in the world that the one before it left, up to the
-- first that fails, and all behind that one are blocked. The last argument is the world that the
-- execution of the succeeded targets and of the failed one, and of no other, ends in.
pub data IsSequence {World : Type 0} (executor : World → ScheduleTarget → Execution × World)
    : ℕ → World → List ScheduleTarget → List TargetResult → World → Type 0 where
  done : (index : ℕ) (world : World) → IsSequence executor index world [] [] world
  succeeds :
      (index : ℕ) (world last : World) (target : ScheduleTarget) (r : TargetResult)
      (targets : List ScheduleTarget) (rs : List TargetResult)
      → IsResultOf index target r
      → IsWell (executor world target).0
      → r.status ≡ success
      → IsSequence executor (suc index) (executor world target).1 targets rs last
      → IsSequence executor index world (target ∷ targets) (r ∷ rs) last
  fails :
      (index : ℕ) (world : World) (target : ScheduleTarget) (r : TargetResult)
      (targets : List ScheduleTarget) (rs : List TargetResult)
      → IsResultOf index target r
      → IsUnwell (executor world target).0
      → r.status ≡ failed
      → IsBlocked (suc index) targets rs
      → IsSequence executor index world (target ∷ targets) (r ∷ rs) (executor world target).1

pub target_result-IsResultOf :
    (index : ℕ) (target : ScheduleTarget) (e : Execution)
    → IsResultOf index target (target_result index target e)
unfolding target_result
target_result-IsResultOf index target (payload true run_id error_type error_message) =
    (refl, refl, refl)
target_result-IsResultOf index target (payload false run_id error_type error_message) =
    (refl, refl, refl)
target_result-IsResultOf index target (raised error_type error_message) = (refl, refl, refl)

target_result-status :
    (index : ℕ) (target : ScheduleTarget) (e : Execution)
    → (IsWell e × ((target_result index target e).status ≡ success))
      ⊎ (IsUnwell e × ((target_result index target e).status ≡ failed))
unfolding target_result
target_result-status index target (payload true run_id error_type error_message) =
    inl (well run_id error_type error_message, refl)
target_result-status index target (payload false run_id error_type error_message) =
    inr (refused run_id error_type error_message, refl)
target_result-status index target (raised error_type error_message) =
    inr (threw error_type error_message, refl)

module _ {World : Type 0} (executor : World → ScheduleTarget → Execution × World)
    (key : String) where
  run_targets-IsBlocked :
      (index : ℕ) (targets : List ScheduleTarget) (rows : TargetRows) (world : World)
      → IsBlocked index targets (run_targets executor key true index targets rows world).0
        × ((run_targets executor key true index targets rows world).1.1 ≡ world)
  unfolding run_targets
  run_targets-IsBlocked index [] rows world = (done index, refl)
  run_targets-IsBlocked index (target ∷ targets) rows world =
      let result = blocked_target index target in
      let rest =
        run_targets-IsBlocked (suc index) targets (write_target_result key result rows) world in
      (blocks index target result targets _ (refl, refl, refl) refl rest.0, rest.1)

  run_targets-IsSequence :
      (index : ℕ) (targets : List ScheduleTarget) (rows : TargetRows) (world : World)
      → IsSequence executor index world targets
          (run_targets executor key false index targets rows world).0
          (run_targets executor key false index targets rows world).1.1
  unfolding run_targets
  run_targets-IsSequence index [] rows world = done index world
  run_targets-IsSequence index (target ∷ targets) rows world =
      let (e, next) = executor world target in
      let r = target_result index target e in
      let rows' = write_target_result key r rows in
      let about = target_result-IsResultOf index target e in
      elim (target_result-status index target e) [
        | inl (payload_ok, is_success) ↦ rw is_success (
            succeeds index world _ target r targets _ about payload_ok is_success
              (run_targets-IsSequence (suc index) targets rows' next))
        | inr (no_success, is_failure) ↦
            let (rest, same) = run_targets-IsBlocked (suc index) targets rows' next in
            rw (is_failure, same)
              (fails index world target r targets _ about no_success is_failure rest)
      ]

  -- The targets run in their order up to the first for which the executor raises or returns a payload that
  -- is not ok; that one is failed, those before it, whose payloads are ok, are successes, and all behind it
  -- are blocked and not executed. Each has one result with its index, alias and key.
  pub run_targets_sequentially-IsSequence :
      (targets : List ScheduleTarget) (rows : TargetRows) (world : World)
      → IsSequence executor 0 world targets
          (run_targets_sequentially executor key targets rows world).0
          (run_targets_sequentially executor key targets rows world).1.1
  unfolding run_targets_sequentially
  run_targets_sequentially-IsSequence targets rows world =
      run_targets-IsSequence 0 targets rows world
