-- ===== src/Runtime/Scheduler/Claim.antt =====
-- `_claim_occurrence` of src/smoking_data/runtime/scheduler.py and the update that ends an
-- occurrence, on the rows of the table `occurrences`. A claim is one transaction, so it is one step.
pub mod Laws
pub mod History
use smoking_data.Prelude.{
  ℕ, ◌+◌, ◌*◌, String, Bool, ◌&&◌, Option, none, some, List, [], ◌∷◌, map, ltb, if◌then◌else◌,
  str_eq,
}
use smoking_data.Prelude.Names.{contains}
use smoking_data.Runtime.Scheduler.Store.{
  ScheduleSpec, ScheduleOccurrence, OccurrenceRow, OccurrenceStatus, running, timed_out, duplicate,
  runtime_busy, is_running,
}

abbrev pub microseconds_per_minute : ℕ
microseconds_per_minute = 60 * 1000000

abbrev pub occurrence_keys : List OccurrenceRow → List String
occurrence_keys rows = map (λ row. row.occurrence_key) rows

-- `definition_key = ? AND status = 'running'`
abbrev pub runs : String → OccurrenceRow → Bool
runs definition_key row = str_eq row.definition_key definition_key && is_running row.status

abbrev pub newest : OccurrenceRow → Option OccurrenceRow → Option OccurrenceRow
newest row none = some row
newest row (some other) = if ltb row.started_at other.started_at then some other else some row

-- `ORDER BY started_at DESC LIMIT 1`
unfoldable pub latest_running : String → List OccurrenceRow → Option OccurrenceRow
latest_running definition_key [] = none
latest_running definition_key (row ∷ rows) =
    let later = latest_running definition_key rows in
    if runs definition_key row then newest row later else later

abbrev pub with_status : OccurrenceStatus → OccurrenceRow → OccurrenceRow
with_status status row = record {
  occurrence_key = row.occurrence_key;
  definition_key = row.definition_key;
  revision_hash = row.revision_hash;
  schedule_alias = row.schedule_alias;
  scheduled_at = row.scheduled_at;
  status = status;
  started_at = row.started_at;
}

-- `UPDATE occurrences SET status = ? WHERE occurrence_key = ?`
unfoldable pub set_status : String → OccurrenceStatus → List OccurrenceRow → List OccurrenceRow
set_status key status [] = []
set_status key status (row ∷ rows) =
    (if str_eq row.occurrence_key key then with_status status row else row)
    ∷ set_status key status rows

abbrev pub refusal : ScheduleSpec → String → ℕ → OccurrenceStatus → ScheduleOccurrence
refusal spec key scheduled_at status = record {
  occurrence_key = key;
  schedule_alias = spec.alias;
  scheduled_at = scheduled_at;
  status = status;
  targets = [];
  error_type = none;
  error_message = none;
}

abbrev pub new_row : ScheduleSpec → String → ℕ → ℕ → OccurrenceRow
new_row spec key scheduled_at started_at = record {
  occurrence_key = key;
  definition_key = spec.definition_key;
  revision_hash = spec.revision_hash;
  schedule_alias = spec.alias;
  scheduled_at = scheduled_at;
  status = running;
  started_at = started_at;
}

-- `none` is a claim that succeeds. `now` is the time of the claim and `started_at` the clock when the
-- row is written.
unfoldable pub claim_occurrence :
    ScheduleSpec
    → String
    → ℕ
    → ℕ
    → ℕ
    → List OccurrenceRow
    → Option ScheduleOccurrence × List OccurrenceRow
unfolding latest_running
claim_occurrence spec key scheduled_at now started_at rows =
    if contains key (occurrence_keys rows)
    then (some (refusal spec key scheduled_at duplicate), rows)
    else (elim (latest_running spec.definition_key rows) [
      | none ↦ (none, new_row spec key scheduled_at started_at ∷ rows)
      | some row ↦
          if ltb now (row.started_at + spec.timeout_minutes * microseconds_per_minute)
          then (some (refusal spec key scheduled_at runtime_busy), rows)
          else (
            none,
            new_row spec key scheduled_at started_at ∷ set_status row.occurrence_key timed_out rows,
          )
    ])
