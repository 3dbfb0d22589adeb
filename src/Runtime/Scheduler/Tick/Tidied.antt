-- ===== src/Runtime/Scheduler/Tick/Tidied.antt =====
-- What the claims and ends of `tick_schedules` do to the running occurrences of the table.
use smoking_data.Prelude.{
  ℕ, ◌+◌, ◌*◌, ◌≤◌, ◌≡◌, refl, Bool, true, false, String, Option, none, some, List, arith, eq_iff,
  Bool-cases, Option-cases, inl, inr, ltb,
}
use smoking_data.Prelude.Names.{contains}
use smoking_data.Runtime.Scheduler.Store.{
  ScheduleSpec, OccurrenceRow, OccurrenceStatus, ScheduleOccurrence, TargetResult, is_running,
  timed_out,
}
use smoking_data.Runtime.Scheduler.Claim.{
  occurrence_keys, claim_occurrence, set_status, latest_running, microseconds_per_minute,
}
use smoking_data.Runtime.Scheduler.Claim.Laws.{IsExclusive, count_running, count_running-set_status}
use smoking_data.Runtime.Scheduler.Tick.{failed_status}

pub failed_status-ended : (r : Option TargetResult) → is_running (failed_status r) ≡ false
failed_status-ended none = refl
failed_status-ended (some r) = refl

-- A claim that succeeds leaves as many running occurrences as there were, when its own is ended.
pub ended_claim :
    (spec : ScheduleSpec) (key : String) (at now started_at : ℕ) (rows : List OccurrenceRow)
    (status : OccurrenceStatus) (d : String)
    → is_running status ≡ false
    → count_running d (set_status key status (claim_occurrence spec key at now started_at rows).1)
      ≤ count_running d rows
unfolding claim_occurrence set_status
ended_claim spec key at now started_at rows status d h =
    elim (Bool-cases (contains key (occurrence_keys rows))) [
      | inl there ↦ rw (claim_occurrence, there) (count_running-set_status d key status rows h)
      | inr fresh ↦ elim (Option-cases (latest_running spec.definition_key rows)) [
        | inl idle ↦
            rw (claim_occurrence, fresh, idle)
              (ground (arith, h, eq_iff key key, count_running-set_status d key status rows h))
        | inr (row, found) ↦
            elim (Bool-cases
              (ltb now (row.started_at + spec.timeout_minutes * microseconds_per_minute))) [
                | inl busy ↦
                    rw (claim_occurrence, fresh, found, busy)
                      (count_running-set_status d key status rows h)
                | inr late ↦
                    rw (claim_occurrence, fresh, found, late)
                      (ground (
                        arith,
                        h,
                        eq_iff key key,
                        count_running-set_status d row.occurrence_key timed_out rows refl,
                        count_running-set_status d key status
                            (set_status row.occurrence_key timed_out rows) h,
                      ))
              ]
      ]
    ]

pub refused_claim :
    (spec : ScheduleSpec) (key : String) (at now started_at : ℕ) (rows : List OccurrenceRow)
    (refused : ScheduleOccurrence)
    → (claim_occurrence spec key at now started_at rows).0 ≡ some refused
    → (claim_occurrence spec key at now started_at rows).1 ≡ rows
unfolding claim_occurrence
refused_claim spec key at now started_at rows refused h = ground arith

-- The table stays exclusive, and where no error ended the work no schedule has more running occurrences than
-- before.
pub record IsTidied (completed : Bool) (before after : List OccurrenceRow) : Type 0 where
  pub exclusive : IsExclusive before → IsExclusive after
  pub no_more_running :
      completed ≡ true → (d : String) → count_running d after ≤ count_running d before

abbrev pub completes : {A : Type 0} → Option A → Bool
completes none = false
completes (some a) = true

pub same-IsTidied : (completed : Bool) (rows : List OccurrenceRow) → IsTidied completed rows rows
same-IsTidied completed rows = record {
  exclusive = λ inv. inv;
  no_more_running = λ c d. omega arith;
}

pub stopped-IsTidied :
    (completed : Bool) (before after : List OccurrenceRow)
    → IsTidied completed before after
    → IsTidied false before after
stopped-IsTidied completed before after h = record {
  exclusive = h.exclusive;
  no_more_running = λ c d. ground arith;
}

pub trans-IsTidied :
    (completed : Bool) (before between after : List OccurrenceRow)
    → IsTidied true before between
    → IsTidied completed between after
    → IsTidied completed before after
trans-IsTidied completed before between after h k = record {
  exclusive = λ inv. k.exclusive (h.exclusive inv);
  no_more_running = λ c d. omega (arith, h.no_more_running refl d, k.no_more_running c d);
}
