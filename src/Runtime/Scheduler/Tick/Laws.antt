-- ===== src/Runtime/Scheduler/Tick/Laws.antt =====
-- What a tick of the scheduler does to the state database.
use smoking_data.Prelude.{
  ℕ, ◌≤◌, ◌≡◌, ◌⊎◌, sym, ap, subst, refl, Bool, true, false, String, Option, none, some, List, [],
  ◌∷◌, arith, Bool-cases, Option-cases, inl, inr, if-elim,
}
use smoking_data.Runtime.Scheduler.Store.{ScheduleSpec, OccurrenceRow, ScheduleOccurrence}
use smoking_data.Runtime.Scheduler.Claim.{claim_occurrence, set_status}
use smoking_data.Runtime.Scheduler.Claim.Laws.{
  IsExclusive, count_running, claim_occurrence-IsExclusive, set_status-IsExclusive,
}
use smoking_data.Runtime.Scheduler.Targets.{run_targets_sequentially}
use smoking_data.Runtime.Scheduler.Tick.{
  TickHost, Store, claim_fails, written_targets, checked_due, run_claimed, first_failed,
  failed_status, run_occurrence, with_check, reported, tick_due, tick_schedule, tick_all,
  tick_schedules,
}
use smoking_data.Runtime.Scheduler.Tick.Tidied.{
  failed_status-ended, ended_claim, refused_claim, IsTidied, completes, same-IsTidied,
  stopped-IsTidied, trans-IsTidied,
}

module _ (host : TickHost) where
  run_claimed-IsTidied :
      (spec : ScheduleSpec) (at now started_at : ℕ) (s : Store (host.World)) (w : host.World)
      (written : Option ℕ) (claim : Option ScheduleOccurrence × List OccurrenceRow)
      → claim ≡ claim_occurrence spec (host.occurrence_key spec at) at now started_at s.occurrences
      → IsTidied
          (completes (run_claimed host spec at claim.1 s w written).0)
          s.occurrences
          (run_claimed host spec at claim.1 s w written).1.occurrences
  unfolding run_claimed
  run_claimed-IsTidied spec at now started_at s w (some n) claim e = record {
    exclusive = λ inv.
        subst (λ c. IsExclusive c.1) (sym e)
          (claim_occurrence-IsExclusive spec (host.occurrence_key spec at) at now started_at
            s.occurrences inv);
    no_more_running = λ c d. ground arith;
  }
  run_claimed-IsTidied spec at now started_at s w none claim e =
      let key = host.occurrence_key spec at in
      let failure =
        first_failed
          (run_targets_sequentially (host.executor spec) key spec.targets s.targets w).0 in
      let status = failed_status failure in
      let ended = failed_status-ended failure in
      record {
        exclusive = λ inv.
            subst (λ c. IsExclusive (set_status key status c.1)) (sym e)
              (set_status-IsExclusive key status _ ended
                (claim_occurrence-IsExclusive spec key at now started_at s.occurrences inv));
        no_more_running = λ c d.
            subst (λ c. count_running d (set_status key status c.1) ≤ count_running d s.occurrences)
              (sym e) (ended_claim spec key at now started_at s.occurrences status d ended);
      }

  run_occurrence-IsTidied :
      (spec : ScheduleSpec) (at : ℕ) (s : Store (host.World))
      → IsTidied
          (completes (run_occurrence host spec at s).0)
          s.occurrences
          (run_occurrence host spec at s).1.occurrences
  unfolding run_occurrence
  run_occurrence-IsTidied spec at s =
      let key = host.occurrence_key spec at in
      let now = host.clock s.world in
      let started = host.clock now.1 in
      let claim = claim_occurrence spec key at now.0 started.0 s.occurrences in
      elim (Bool-cases (claim_fails (host.fault spec s.world))) [
        | inl unclaimed ↦ rw (run_occurrence, unclaimed) (same-IsTidied false s.occurrences)
        | inr may_claim ↦ elim (Option-cases claim.0) [
          | inl claimed ↦
              rw (run_occurrence, may_claim, claimed)
                (run_claimed-IsTidied spec at now.0 started.0 s started.1
                  (written_targets (host.fault spec s.world)) claim refl)
          | inr (refused, no_claim) ↦
              rw
                (
                  run_occurrence,
                  may_claim,
                  no_claim,
                  refused_claim spec key at now.0 started.0 s.occurrences refused no_claim,
                )
                (same-IsTidied true s.occurrences)
        ]
      ]

  reported-IsTidied :
      (before : List OccurrenceRow) (r : Option ScheduleOccurrence × Store (host.World))
      → IsTidied (completes r.0) before r.1.occurrences
      → IsTidied (completes (reported host r).0) before (reported host r).1.occurrences
  reported-IsTidied before (none, s) h = h
  reported-IsTidied before (some occurrence, s) h = h

  tick_due-IsTidied :
      (spec : ScheduleSpec) (current : ℕ) (s : Store (host.World)) (due : Option (Option ℕ))
      → IsTidied
          (completes (tick_due host spec current s due).0)
          s.occurrences
          (tick_due host spec current s due).1.occurrences
  unfolding tick_due
  tick_due-IsTidied spec current s none = same-IsTidied false s.occurrences
  tick_due-IsTidied spec current s (some none) = same-IsTidied true s.occurrences
  tick_due-IsTidied spec current s (some (some at)) =
      let checked = with_check host spec current s in
      if-elim (λ r. IsTidied (completes r.0) s.occurrences r.1.occurrences) spec.enabled
        (reported host (run_occurrence host spec at checked)) (some none, checked)
        (reported-IsTidied s.occurrences (run_occurrence host spec at checked)
          (run_occurrence-IsTidied spec at checked))
        (same-IsTidied true s.occurrences)

  tick_all-IsTidied :
      (specs : List ScheduleSpec) (current : ℕ) (s : Store (host.World))
      → IsTidied
          (completes (tick_all host specs current s).0)
          s.occurrences
          (tick_all host specs current s).1.occurrences
  unfolding tick_all tick_schedule
  tick_all-IsTidied [] current s = same-IsTidied true s.occurrences
  tick_all-IsTidied (spec ∷ specs) current s =
      let due = checked_due host spec current s in
      let s' = (tick_due host spec current s due).1 in
      let first = tick_due-IsTidied spec current s due in
      let later = tick_all-IsTidied specs current s' in
      elim (Option-cases (tick_due host spec current s due).0) [
        | inl stopped ↦
            rw (tick_all, stopped) (stopped-IsTidied _ s.occurrences s'.occurrences first)
        | inr (o, ran) ↦
            let through : IsTidied true s.occurrences s'.occurrences =
              subst (λ c. IsTidied (completes c) s.occurrences s'.occurrences) ran first in
            let both = trans-IsTidied _ s.occurrences s'.occurrences _ through later in
            elim (Option-cases (tick_all host specs current s').0) [
              | inl stopped ↦ rw (tick_all, ran, stopped) (stopped-IsTidied _ s.occurrences _ both)
              | inr (os, all_ran) ↦
                  let whole =
                    subst
                      (λ c.
                        IsTidied (completes c) s.occurrences
                          (tick_all host specs current s').1.occurrences)
                      all_ran both in
                  rw (tick_all, ran, all_ran) whole
            ]
      ]

  tick_schedules-IsTidied :
      (locked : Bool) (specs : List ScheduleSpec) (current : ℕ) (s : Store (host.World))
      → IsTidied
          (completes (tick_schedules host locked specs current s).0)
          s.occurrences
          (tick_schedules host locked specs current s).1.occurrences
  unfolding tick_schedules
  tick_schedules-IsTidied false specs current s = same-IsTidied true s.occurrences
  tick_schedules-IsTidied true specs current s =
      let tidied = tick_all-IsTidied specs current s in
      elim (Option-cases (tick_all host specs current s).0) [
        | inl stopped ↦ rw (tick_schedules, stopped) (stopped-IsTidied _ s.occurrences _ tidied)
        | inr (os, ran) ↦
            let whole =
              subst
                (λ c.
                  IsTidied (completes c) s.occurrences
                    (tick_all host specs current s).1.occurrences)
                ran tidied in
            rw (tick_schedules, ran) whole
      ]

  -- A tick, also one that an error ends, keeps the occurrence keys distinct and at most one occurrence of
  -- each schedule definition running. Unless an error ends it, it leaves none running that it started: each
  -- definition has at most as many running occurrences as before.
  pub tick_schedules-IsExclusive :
      (locked : Bool) (specs : List ScheduleSpec) (current : ℕ) (s : Store (host.World))
      (d : String)
      → IsExclusive s.occurrences
      → IsExclusive (tick_schedules host locked specs current s).1.occurrences
        × (((tick_schedules host locked specs current s).0 ≡ none)
            ⊎ (count_running d (tick_schedules host locked specs current s).1.occurrences
                ≤ count_running d s.occurrences))
  tick_schedules-IsExclusive locked specs current s d inv =
      let tidied = tick_schedules-IsTidied locked specs current s in
      (
        tidied.exclusive inv,
        elim (Option-cases (tick_schedules host locked specs current s).0) [
          | inl stopped ↦ inl stopped
          | inr (result, ran) ↦ inr (tidied.no_more_running (ap completes ran) d)
        ],
      )
