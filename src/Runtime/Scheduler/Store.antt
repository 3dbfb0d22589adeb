-- ===== src/Runtime/Scheduler/Store.antt =====
-- The definitions of schedules and the state database of src/smoking_data/runtime/scheduler.py. A
-- scheduled time is a number of minutes, a start a number of microseconds; a row keeps the columns
-- that the scheduler reads.
use smoking_data.Prelude.{
  ℕ, String, Bool, true, false, Option, none, some, List, [], ◌∷◌, if◌then◌else◌, str_eq,
}
use smoking_data.Runtime.Scheduler.Cron.{Text}

pub data TargetKind : Type 0 where
  asset chain : TargetKind

pub record ScheduleTarget : Type 0 where
  pub alias : String
  pub kind : TargetKind
  pub definition : String
  pub target_key : String

pub data Misfire : Type 0 where
  skip catch_up_once : Misfire

-- `cron` is the list of the expression's fields. The file's path, the project's and the time zone, which
-- only the host reads, are left out.
pub record ScheduleSpec : Type 0 where
  pub alias : String
  pub definition_key : String
  pub revision_hash : String
  pub enabled : Bool
  pub cron : List Text
  pub targets : List ScheduleTarget
  pub misfire : Misfire
  pub timeout_minutes : ℕ

pub data TargetStatus : Type 0 where
  success failed blocked : TargetStatus

-- The status of a row, and of what the tick reports.
pub data OccurrenceStatus : Type 0 where
  running success failed timed_out duplicate runtime_busy : OccurrenceStatus

pub record ScheduleRow : Type 0 where
  pub definition_key : String
  pub revision_hash : String
  pub last_alias : String
  pub last_checked_at : ℕ

pub record OccurrenceRow : Type 0 where
  pub occurrence_key : String
  pub definition_key : String
  pub revision_hash : String
  pub schedule_alias : String
  pub scheduled_at : ℕ
  pub status : OccurrenceStatus
  pub started_at : ℕ

pub record TargetResult : Type 0 where
  pub index : ℕ
  pub alias : String
  pub target_key : String
  pub kind : TargetKind
  pub definition : String
  pub status : TargetStatus
  pub run_id : Option String
  pub error_type : Option String
  pub error_message : Option String

pub record ScheduleOccurrence : Type 0 where
  pub occurrence_key : String
  pub schedule_alias : String
  pub scheduled_at : ℕ
  pub status : OccurrenceStatus
  pub targets : List TargetResult
  pub error_type : Option String
  pub error_message : Option String

abbrev pub is_running : OccurrenceStatus → Bool
is_running running = true
is_running _ = false

-- `SELECT last_checked_at FROM schedules WHERE definition_key = ?`
unfoldable pub last_checked : String → List ScheduleRow → Option ℕ
last_checked key [] = none
last_checked key (row ∷ rows) =
    let later = last_checked key rows in
    if str_eq row.definition_key key then some row.last_checked_at else later

-- `INSERT INTO schedules ... ON CONFLICT(definition_key) DO UPDATE`
unfoldable pub upsert_schedule_state : ScheduleSpec → ℕ → List ScheduleRow → List ScheduleRow
upsert_schedule_state spec checked_at [] =
    record {
      definition_key = spec.definition_key;
      revision_hash = spec.revision_hash;
      last_alias = spec.alias;
      last_checked_at = checked_at;
    }
    ∷ []
upsert_schedule_state spec checked_at (row ∷ rows) =
    let later = upsert_schedule_state spec checked_at rows in
    if str_eq row.definition_key spec.definition_key
    then record {
      definition_key = row.definition_key;
      revision_hash = spec.revision_hash;
      last_alias = spec.alias;
      last_checked_at = checked_at;
    }
      ∷ rows
    else row ∷ later
