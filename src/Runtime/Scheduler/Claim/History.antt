-- ===== src/Runtime/Scheduler/Claim/History.antt =====
-- The table of occurrences as claims and ends of occurrences change it, in any order.
use smoking_data.Prelude.{
  ℕ, ◌≡◌, refl, Bool, true, false, String, none, some, List, arith, eq_iff, Bool-cases,
  Option-cases, inl, inr, ltb, ◌+◌, ◌*◌,
}
use smoking_data.Prelude.Names.{contains}
use smoking_data.Runtime.Scheduler.Store.{
  ScheduleSpec, OccurrenceRow, OccurrenceStatus, is_running, timed_out, duplicate,
}
use smoking_data.Runtime.Scheduler.Claim.{
  occurrence_keys, latest_running, set_status, refusal, claim_occurrence, microseconds_per_minute,
}
use smoking_data.Runtime.Scheduler.Claim.Laws.{
  IsExclusive, occurrence_keys-set_status, claim_occurrence-IsExclusive, set_status-IsExclusive,
}

-- One change of the table: a claim, or the end of an occurrence.
pub data Change : List OccurrenceRow → List OccurrenceRow → Type 0 where
  claimed :
      (spec : ScheduleSpec) (key : String) (scheduled_at now started_at : ℕ)
      (rows : List OccurrenceRow)
      → Change rows (claim_occurrence spec key scheduled_at now started_at rows).1
  ended :
      (key : String) (status : OccurrenceStatus) (rows : List OccurrenceRow)
      → is_running status ≡ false
      → Change rows (set_status key status rows)

pub data Changes : List OccurrenceRow → List OccurrenceRow → Type 0 where
  done : (rows : List OccurrenceRow) → Changes rows rows
  step :
      (before between after : List OccurrenceRow)
      → Change before between
      → Changes between after
      → Changes before after

Change-IsExclusive :
    (before after : List OccurrenceRow)
    → Change before after
    → IsExclusive before
    → IsExclusive after
Change-IsExclusive _ _ (claimed spec key at now started rows) inv =
    claim_occurrence-IsExclusive spec key at now started rows inv
Change-IsExclusive _ _ (ended key status rows h) inv = set_status-IsExclusive key status rows h inv

-- Claims and ends in any order keep the occurrence keys distinct and leave at most one occurrence
-- of each schedule definition running.
pub Changes-IsExclusive :
    (before after : List OccurrenceRow)
    → Changes before after
    → IsExclusive before
    → IsExclusive after
Changes-IsExclusive _ _ (done rows) inv = inv
Changes-IsExclusive _ _ (step before between after first rest) inv =
    Changes-IsExclusive between after rest (Change-IsExclusive before between first inv)

abbrev known : String → List OccurrenceRow → Bool
known key rows = contains key (occurrence_keys rows)

claim_occurrence-keeps :
    (spec : ScheduleSpec) (key x : String) (scheduled_at now started_at : ℕ)
    (rows : List OccurrenceRow)
    → known x rows ≡ true
    → known x (claim_occurrence spec key scheduled_at now started_at rows).1 ≡ true
unfolding claim_occurrence
claim_occurrence-keeps spec key x at now started rows h = elim (Bool-cases (known key rows)) [
  | inl there ↦ rw (claim_occurrence, there) h
  | inr fresh ↦ elim (Option-cases (latest_running spec.definition_key rows)) [
    | inl idle ↦ rw (claim_occurrence, fresh, idle) (ground (arith, h))
    | inr (row, found) ↦
        elim (Bool-cases
          (ltb now (row.started_at + spec.timeout_minutes * microseconds_per_minute))) [
            | inl busy ↦ rw (claim_occurrence, fresh, found, busy) h
            | inr late ↦
                rw (claim_occurrence, fresh, found, late)
                  (ground (arith, h, occurrence_keys-set_status row.occurrence_key timed_out rows))
          ]
  ]
]

claim_occurrence-knows :
    (spec : ScheduleSpec) (key : String) (scheduled_at now started_at : ℕ)
    (rows : List OccurrenceRow)
    → (claim_occurrence spec key scheduled_at now started_at rows).0 ≡ none
    → known key (claim_occurrence spec key scheduled_at now started_at rows).1 ≡ true
unfolding claim_occurrence
claim_occurrence-knows spec key at now started rows h = ground (arith, eq_iff key key)

Changes-keeps :
    (x : String) (before after : List OccurrenceRow)
    → Changes before after
    → known x before ≡ true
    → known x after ≡ true
Changes-keeps x _ _ (done rows) h = h
Changes-keeps x _ _ (step _ _ after (claimed spec key at now started rows) rest) h =
    Changes-keeps x _ after rest (claim_occurrence-keeps spec key x at now started rows h)
Changes-keeps x _ _ (step _ _ after (ended key status rows n) rest) h =
    Changes-keeps x _ after rest (ground (arith, h, occurrence_keys-set_status key status rows))

-- An occurrence is claimed once: after a claim that succeeds, and any claims and ends after it,
-- every further claim of the same key, by any schedule and at any time, is refused as a duplicate and
-- changes nothing.
pub claim_occurrence-once :
    (first second : ScheduleSpec) (key : String)
    (at now started later_at later_now later_started : ℕ) (rows after : List OccurrenceRow)
    → (claim_occurrence first key at now started rows).0 ≡ none
    → Changes (claim_occurrence first key at now started rows).1 after
    → claim_occurrence second key later_at later_now later_started after
      ≡ (some (refusal second key later_at duplicate), after)
unfolding claim_occurrence
claim_occurrence-once first second key at now started later_at later_now later_started rows after h
      c =
    let there : known key after ≡ true =
      Changes-keeps key (claim_occurrence first key at now started rows).1 after c
        (claim_occurrence-knows first key at now started rows h) in
    rw (claim_occurrence, there) refl
