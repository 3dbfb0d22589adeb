-- ===== src/Runtime/Scheduler/Targets/Rows.antt =====
-- The rows that the results of an occurrence's targets are written to.
use smoking_data.Prelude.{
  ℕ, suc, leb, ◌≡◌, ◌≢◌, refl, ◌∙◌, Bool, true, false, ◌&&◌, String, some, List, [], ◌∷◌, arith,
  ◌==◌, str_eq, eq_iff, All,
}
use smoking_data.Runtime.Scheduler.Store.{ScheduleTarget, TargetResult}
use smoking_data.Runtime.Scheduler.Targets.{
  Execution, TargetRows, write_target_result, find_target, blocked_target, target_result, is_failed,
  run_targets, run_targets_sequentially,
}
use smoking_data.Runtime.Scheduler.Targets.Laws.{target_result-IsResultOf}

find-write_same :
    (key : String) (r : TargetResult) (rows : TargetRows)
    → find_target key r.index (write_target_result key r rows) ≡ some r
unfolding find_target write_target_result
find-write_same key r [] = ground (arith, eq_iff key key)
find-write_same key r (row ∷ rows) = ground (arith, eq_iff key key, find-write_same key r rows)

find-write_other :
    (key x : String) (r : TargetResult) (j : ℕ) (rows : TargetRows)
    → (str_eq key x && (r.index == j)) ≡ false
    → find_target x j (write_target_result key r rows) ≡ find_target x j rows
unfolding find_target write_target_result
find-write_other key x r j [] h = ground (arith, h)
find-write_other key x r j (row ∷ rows) h =
    ground
      (arith, h, find-write_other key x r j rows h, eq_iff row.0 key, eq_iff row.0 x, eq_iff key x)

-- What a run with the given key does not touch: the rows of other keys and of lower indices.
abbrev pub Apart : String → ℕ → String → ℕ → Type 0
Apart key index x j = (str_eq key x && leb index j) ≡ false

module _ {World : Type 0} (executor : World → ScheduleTarget → Execution × World)
    (key : String) where
  find-run_targets_other :
      (stopped : Bool) (index : ℕ) (targets : List ScheduleTarget) (rows : TargetRows)
      (world : World) (x : String) (j : ℕ)
      → Apart key index x j
      → find_target x j (run_targets executor key stopped index targets rows world).1.0
        ≡ find_target x j rows
  unfolding run_targets
  find-run_targets_other stopped index [] rows world x j h = refl
  find-run_targets_other true index (target ∷ targets) rows world x j h =
      let r = blocked_target index target in
      find-run_targets_other true (suc index) targets (write_target_result key r rows) world x j
        (ground (arith, h))
      ∙ find-write_other key x r j rows (ground (arith, h))
  find-run_targets_other false index (target ∷ targets) rows world x j h =
      let (e, next) = executor world target in
      let r = target_result index target e in
      find-run_targets_other (is_failed r.status) (suc index) targets
        (write_target_result key r rows) next x j (ground (arith, h))
      ∙ find-write_other key x r j rows
          (ground (arith, h, (target_result-IsResultOf index target e).0))

  find-run_targets :
      (stopped : Bool) (index : ℕ) (targets : List ScheduleTarget) (rows : TargetRows)
      (world : World)
      → All
          (λ r.
            find_target key r.index (run_targets executor key stopped index targets rows world).1.0
            ≡ some r)
          (run_targets executor key stopped index targets rows world).0
  unfolding run_targets
  find-run_targets stopped index [] rows world = tt
  find-run_targets true index (target ∷ targets) rows world =
      let r = blocked_target index target in
      let rows' = write_target_result key r rows in
      (
        find-run_targets_other true (suc index) targets rows' world key index (ground arith)
            ∙ find-write_same key r rows,
        find-run_targets true (suc index) targets rows' world,
      )
  find-run_targets false index (target ∷ targets) rows world =
      let (e, next) = executor world target in
      let r = target_result index target e in
      let rows' = write_target_result key r rows in
      (
        find-run_targets_other (is_failed r.status) (suc index) targets rows' next key r.index
              (ground (arith, (target_result-IsResultOf index target e).0))
            ∙ find-write_same key r rows,
        find-run_targets (is_failed r.status) (suc index) targets rows' next,
      )

  -- After a run of the targets the table holds every result under the occurrence's key and the
  -- result's index, and under any other key what it held before.
  pub find-run_targets_sequentially :
      (targets : List ScheduleTarget) (rows : TargetRows) (world : World) (x : String) (j : ℕ)
      → x ≢ key
      → All
          (λ r.
            find_target key r.index (run_targets_sequentially executor key targets rows world).1.0
            ≡ some r)
          (run_targets_sequentially executor key targets rows world).0
        × (find_target x j (run_targets_sequentially executor key targets rows world).1.0
            ≡ find_target x j rows)
  unfolding run_targets_sequentially
  find-run_targets_sequentially targets rows world x j h = (
    find-run_targets false 0 targets rows world,
    find-run_targets_other false 0 targets rows world x j (ground (arith, h, eq_iff key x)),
  )
