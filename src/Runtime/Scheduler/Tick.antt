-- ===== src/Runtime/Scheduler/Tick.antt =====
-- `tick_schedules` of src/smoking_data/runtime/scheduler.py over the schedules of a directory. Python's
-- `int`, the clock, the time zones, the key's digest and the executor are the parameter `TickHost`.
pub mod Tidied
pub mod Laws
pub mod Checked
use smoking_data.Prelude.{
  ℕ, String, Bool, true, false, not, ◌&&◌, Option, none, some, List, [], ◌∷◌, all, any, zero, suc,
  if◌then◌else◌,
}
use smoking_data.Runtime.Scheduler.Cron.{Text, Integer, LocalTime}
use smoking_data.Runtime.Scheduler.Store.{
  ScheduleTarget, ScheduleSpec, ScheduleRow, OccurrenceRow, ScheduleOccurrence, OccurrenceStatus,
  TargetResult, upsert_schedule_state,
}
use smoking_data.Runtime.Scheduler.Due.{due_occurrence}
use smoking_data.Runtime.Scheduler.Claim.{claim_occurrence, set_status}
use smoking_data.Runtime.Scheduler.Targets.{
  Execution, TargetRows, is_failed, run_targets_sequentially,
}

-- `xs[:n]`
unfoldable pub take {ℓ} : {A : Type ℓ} → ℕ → List A → List A
take zero xs = []
take (suc n) [] = []
take (suc n) (x ∷ xs) = x ∷ take n xs

-- Which write to the state database raises in the part of a schedule: that of the check, the claim, or, behind
-- a claim, the one after the rows of so many targets (the update of the occurrence, behind all targets).
pub data Fault : Type 0 where
  no_fault check_raises claim_raises : Fault
  write_raises : ℕ → Fault

abbrev pub check_fails : Fault → Bool
check_fails check_raises = true
check_fails _ = false

abbrev pub claim_fails : Fault → Bool
claim_fails claim_raises = true
claim_fails _ = false

abbrev pub written_targets : Fault → Option ℕ
written_targets (write_raises n) = some n
written_targets _ = none

pub record TickHost : Type 1 where
  pub World : Type 0
  pub int : Text → Option Integer
  -- the conversion of a minute to the time zone of a schedule
  pub local : ScheduleSpec → ℕ → LocalTime
  -- the digest over the definition's key and the local time of the occurrence
  pub occurrence_key : ScheduleSpec → ℕ → String
  -- a reading of the clock, in microseconds
  pub clock : World → ℕ × World
  pub fault : ScheduleSpec → World → Fault
  pub executor : ScheduleSpec → World → ScheduleTarget → Execution × World

-- The tables of the state database, and the world outside.
pub record Store (World : Type 0) : Type 0 where
  pub schedules : List ScheduleRow
  pub occurrences : List OccurrenceRow
  pub targets : TargetRows
  pub world : World

-- `next((item for item in target_results if item["status"] == "failed"), None)`
unfoldable pub first_failed : List TargetResult → Option TargetResult
first_failed [] = none
first_failed (r ∷ rs) = let later = first_failed rs in if is_failed r.status then some r else later

abbrev pub failed_status : Option TargetResult → OccurrenceStatus
failed_status none = OccurrenceStatus.success
failed_status (some r) = OccurrenceStatus.failed

abbrev pub error_type_of : Option TargetResult → Option String
error_type_of none = none
error_type_of (some r) = r.error_type

abbrev pub error_message_of : Option TargetResult → Option String
error_message_of none = none
error_message_of (some r) = r.error_message

module _ (host : TickHost) where
  open host use {World, int, local, occurrence_key, clock, fault, executor}

  abbrev pub finished : ScheduleSpec → String → ℕ → List TargetResult → ScheduleOccurrence
  finished spec key scheduled_at results =
      let failure = first_failed results in
      record {
        occurrence_key = key;
        schedule_alias = spec.alias;
        scheduled_at = scheduled_at;
        status = failed_status failure;
        targets = results;
        error_type = error_type_of failure;
        error_message = error_message_of failure;
      }

  -- The run of the targets of a claimed occurrence and the update of its row. Where a write raises, the
  -- row of the target it is about is not written, and the occurrence stays as it was claimed.
  unfoldable pub run_claimed :
      ScheduleSpec
      → ℕ
      → List OccurrenceRow
      → Store World
      → World
      → Option ℕ
      → Option ScheduleOccurrence × Store World
  unfolding run_targets_sequentially set_status first_failed take
  run_claimed spec scheduled_at rows s w (some n) =
      let key = occurrence_key spec scheduled_at in
      let (_, (targets, _)) =
        run_targets_sequentially (executor spec) key (take n spec.targets) s.targets w in
      let (_, (_, world')) =
        run_targets_sequentially (executor spec) key (take (suc n) spec.targets) s.targets w in
      (
        none,
        record { schedules = s.schedules; occurrences = rows; targets = targets; world = world' },
      )
  run_claimed spec scheduled_at rows s w none =
      let key = occurrence_key spec scheduled_at in
      let (results, (targets, world')) =
        run_targets_sequentially (executor spec) key spec.targets s.targets w in
      let status = failed_status (first_failed results) in
      (
        some (finished spec key scheduled_at results),
        record {
          schedules = s.schedules;
          occurrences = set_status key status rows;
          targets = targets;
          world = world';
        },
      )

  -- The claim of a due occurrence and, where it succeeds, the run; `none` is an error of the database.
  unfoldable pub run_occurrence :
      ScheduleSpec → ℕ → Store World → Option ScheduleOccurrence × Store World
  unfolding claim_occurrence run_claimed
  run_occurrence spec scheduled_at s =
      let key = occurrence_key spec scheduled_at in
      let (now, after_now) = clock s.world in
      let (started_at, after_start) = clock after_now in
      let (claim, rows) = claim_occurrence spec key scheduled_at now started_at s.occurrences in
      if claim_fails (fault spec s.world) then (none, s) else elim claim [
        | some refused ↦ (
          some refused,
          record {
            schedules = s.schedules;
            occurrences = rows;
            targets = s.targets;
            world = after_start;
          },
        )
        | none ↦
            run_claimed spec scheduled_at rows s after_start (written_targets (fault spec s.world))
      ]

  abbrev pub with_check : ScheduleSpec → ℕ → Store World → Store World
  with_check spec current s = record {
    schedules = upsert_schedule_state spec current s.schedules;
    occurrences = s.occurrences;
    targets = s.targets;
    world = s.world;
  }

  abbrev pub reported :
      Option ScheduleOccurrence × Store World → Option (Option ScheduleOccurrence) × Store World
  reported (none, s) = (none, s)
  reported (some occurrence, s) = (some (some occurrence), s)

  -- The rest of a schedule's part of the tick, on what `_due_occurrence` gave.
  unfoldable pub tick_due :
      ScheduleSpec
      → ℕ
      → Store World
      → Option (Option ℕ)
      → Option (Option ScheduleOccurrence) × Store World
  unfolding upsert_schedule_state run_occurrence
  tick_due spec current s none = (none, s)
  tick_due spec current s (some none) = (some none, with_check spec current s)
  tick_due spec current s (some (some scheduled_at)) =
      if spec.enabled
      then reported (run_occurrence spec scheduled_at (with_check spec current s))
      else (some none, with_check spec current s)

  -- `_due_occurrence`; `none` is the error of an invalid expression, or of the database when it records the
  -- check of the schedule.
  abbrev pub checked_due : ScheduleSpec → ℕ → Store World → Option (Option ℕ)
  checked_due spec current s =
      if check_fails (fault spec s.world)
      then none
      else due_occurrence int (local spec) s.schedules spec current

  -- One schedule of the tick: `none` is an error, `some none` a schedule that is not due or is switched off.
  unfoldable pub tick_schedule :
      ScheduleSpec → ℕ → Store World → Option (Option ScheduleOccurrence) × Store World
  unfolding due_occurrence tick_due
  tick_schedule spec current s = tick_due spec current s (checked_due spec current s)

  abbrev pub cons_occurrence :
      Option ScheduleOccurrence → List ScheduleOccurrence → List ScheduleOccurrence
  cons_occurrence none rest = rest
  cons_occurrence (some o) rest = o ∷ rest

  -- The occurrences of the tick; `none` where an error ends it, with the tables as they are then.
  unfoldable pub tick_all :
      List ScheduleSpec → ℕ → Store World → Option (List ScheduleOccurrence) × Store World
  unfolding tick_schedule
  tick_all [] current s = (some [], s)
  tick_all (spec ∷ specs) current s =
      let (first, s') = tick_schedule spec current s in
      let (rest, s'') = tick_all specs current s' in
      elim first [
        | none ↦ (none, s')
        | some occurrence ↦ elim rest [
          | none ↦ (none, s'')
          | some occurrences ↦ (some (cons_occurrence occurrence occurrences), s'')
        ]
      ]

abbrev pub has_failed : OccurrenceStatus → Bool
has_failed OccurrenceStatus.failed = true
has_failed _ = false

pub record TickResult : Type 0 where
  pub ok : Bool
  pub busy : Bool
  pub occurrences : List ScheduleOccurrence

-- `locked` says that the lock of the scheduler was taken; another tick holds it otherwise.
unfoldable pub tick_schedules :
    (host : TickHost)
    → Bool
    → List ScheduleSpec
    → ℕ
    → Store (host.World)
    → Option TickResult × Store (host.World)
unfolding tick_all
tick_schedules host false specs current s =
    (some (record { ok = true; busy = true; occurrences = [] }), s)
tick_schedules host true specs current s =
    let (result, s') = tick_all host specs current s in
    elim result [
      | none ↦ (none, s')
      | some occurrences ↦ (
        some (record {
          ok = all (λ o. not (has_failed o.status)) occurrences;
          busy = false;
          occurrences = occurrences;
        }),
        s',
      )
    ]
