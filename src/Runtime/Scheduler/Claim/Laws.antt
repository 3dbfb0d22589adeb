-- ===== src/Runtime/Scheduler/Claim/Laws.antt =====
-- The claims of occurrences over time.
use smoking_data.Prelude.{
  ℕ, suc, ◌+◌, ◌*◌, ◌≤◌, ◌≡◌, refl, true, false, String, none, some, List, [], ◌∷◌, arith,
  if◌then◌else◌, eq_iff, ltb, Bool-cases, Option-cases, inl, inr,
}
use smoking_data.Prelude.Names.{contains, unique}
use smoking_data.Runtime.Scheduler.Store.{
  ScheduleSpec, OccurrenceRow, OccurrenceStatus, timed_out, is_running,
}
use smoking_data.Runtime.Scheduler.Claim.{
  occurrence_keys, runs, latest_running, set_status, claim_occurrence, microseconds_per_minute,
}

-- The number of running occurrences of a schedule definition.
abbrev pub count_running : String → List OccurrenceRow → ℕ
count_running d [] = 0
count_running d (row ∷ rows) = (if runs d row then 1 else 0) + count_running d rows

-- No occurrence key stands twice, and no schedule definition has two running occurrences.
pub record IsExclusive (rows : List OccurrenceRow) : Type 0 where
  pub distinct : unique (occurrence_keys rows) ≡ true
  pub single : (d : String) → count_running d rows ≤ 1

pub occurrence_keys-set_status :
    (key : String) (status : OccurrenceStatus) (rows : List OccurrenceRow)
    → occurrence_keys (set_status key status rows) ≡ occurrence_keys rows
unfolding set_status
occurrence_keys-set_status key status [] = refl
occurrence_keys-set_status key status (row ∷ rows) =
    ground (arith, occurrence_keys-set_status key status rows)

pub count_running-set_status :
    (d key : String) (status : OccurrenceStatus) (rows : List OccurrenceRow)
    → is_running status ≡ false
    → count_running d (set_status key status rows) ≤ count_running d rows
unfolding set_status
count_running-set_status d key status [] h = omega arith
count_running-set_status d key status (row ∷ rows) h =
    ground (arith, count_running-set_status d key status rows h)

pub set_status-IsExclusive :
    (key : String) (status : OccurrenceStatus) (rows : List OccurrenceRow)
    → is_running status ≡ false
    → IsExclusive rows
    → IsExclusive (set_status key status rows)
set_status-IsExclusive key status rows h inv = record {
  distinct = ground (arith, inv.distinct, occurrence_keys-set_status key status rows);
  single = λ d. ground (arith, inv.single d, count_running-set_status d key status rows h);
}

latest_running-none :
    (d : String) (rows : List OccurrenceRow)
    → latest_running d rows ≡ none
    → count_running d rows ≡ 0
unfolding latest_running
latest_running-none d [] h = refl
latest_running-none d (row ∷ rows) h = elim (Option-cases (latest_running d rows)) [
  | inl nothing ↦ ground (arith, latest_running-none d rows nothing)
  | inr (other, found) ↦ ground arith
]

count_running-set_status-latest :
    (d : String) (status : OccurrenceStatus) (rows : List OccurrenceRow) (row : OccurrenceRow)
    → is_running status ≡ false
    → latest_running d rows ≡ some row
    → suc (count_running d (set_status row.occurrence_key status rows)) ≤ count_running d rows
unfolding latest_running set_status
count_running-set_status-latest d status [] row s h = cc
count_running-set_status-latest d status (first ∷ rows) row s h =
    elim (Option-cases (latest_running d rows)) [
      | inl nothing ↦ ground (
        arith,
        eq_iff first.occurrence_key row.occurrence_key,
        count_running-set_status d row.occurrence_key status rows s,
      )
      | inr (other, found) ↦ ground (
        arith,
        eq_iff first.occurrence_key row.occurrence_key,
        count_running-set_status d row.occurrence_key status rows s,
        count_running-set_status-latest d status rows other s found,
      )
    ]

module _ (spec : ScheduleSpec) (key : String) (scheduled_at now started_at : ℕ) where
  pub claim_occurrence-IsExclusive :
      (rows : List OccurrenceRow)
      → IsExclusive rows
      → IsExclusive (claim_occurrence spec key scheduled_at now started_at rows).1
  unfolding claim_occurrence
  claim_occurrence-IsExclusive rows inv = elim (Bool-cases (contains key (occurrence_keys rows))) [
    | inl known ↦ rw (claim_occurrence, known) inv
    | inr fresh ↦ elim (Option-cases (latest_running spec.definition_key rows)) [
      | inl idle ↦
          rw (claim_occurrence, fresh, idle)
            (record {
              distinct = ground (arith, inv.distinct);
              single = λ d. ground (
                arith,
                inv.single d,
                latest_running-none spec.definition_key rows idle,
                eq_iff spec.definition_key d,
              );
            })
      | inr (row, found) ↦
          elim (Bool-cases
            (ltb now (row.started_at + spec.timeout_minutes * microseconds_per_minute))) [
              | inl busy ↦ rw (claim_occurrence, fresh, found, busy) inv
              | inr late ↦
                  rw (claim_occurrence, fresh, found, late)
                    (record {
                      distinct = ground (
                        arith,
                        inv.distinct,
                        occurrence_keys-set_status row.occurrence_key timed_out rows,
                      );
                      single = λ d. ground (
                        arith,
                        inv.single d,
                        eq_iff spec.definition_key d,
                        count_running-set_status d row.occurrence_key timed_out rows refl,
                        count_running-set_status-latest spec.definition_key timed_out rows row refl
                            found,
                      );
                    })
            ]
    ]
  ]
