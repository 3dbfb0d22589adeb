-- ===== src/Runtime/Scheduler/Examples.antt =====
-- A schedule on concrete inputs, and the theorems about the scheduler at it.
use smoking_data.Prelude.{
  ◌⊎◌, ℕ, ◌+◌, ◌-◌, ◌*◌, ◌/◌, ◌%◌, ◌≤◌, ◌≡◌, ◌↔◌, ◌≢◌, refl, arith, String, Bool, true, ◌&&◌, ◌==◌,
  any, str_eq, eq_iff, ◌++◌, Option, none, some, List, [], ◌∷◌, is_empty, all, leb, if◌then◌else◌,
  All, zero, suc,
}
use smoking_data.Runtime.Scheduler.Cron.{
  Text, Integer, natural, Cron, LocalTime, parse_cron, parse_cron_field, matches_parsed,
  cron_matches, steps, range,
}
use smoking_data.Runtime.Scheduler.CronValues.{IsCalendar, range_iff, parse_cron-IsCalendar}
use smoking_data.Runtime.Scheduler.Store.{
  ScheduleTarget, ScheduleSpec, ScheduleRow, OccurrenceRow, success, duplicate, catch_up_once,
  asset, last_checked,
}
use smoking_data.Runtime.Scheduler.Due.{
  due_occurrence, latest_match, due_from, IsLatest, due_occurrence-IsLatest,
}
use smoking_data.Runtime.Scheduler.Claim.{claim_occurrence, set_status, refusal}
use smoking_data.Runtime.Scheduler.Claim.Laws.{IsExclusive, count_running}
use smoking_data.Runtime.Scheduler.Claim.History.{
  Changes, done, step, claimed, ended, Changes-IsExclusive, claim_occurrence-once,
}
use smoking_data.Runtime.Scheduler.Targets.{
  Execution, payload, raised, find_target, run_targets_sequentially,
}
use smoking_data.Runtime.Scheduler.Targets.Laws.{IsSequence, run_targets_sequentially-IsSequence}
use smoking_data.Runtime.Scheduler.Targets.Rows.{find-run_targets_sequentially}
use smoking_data.Runtime.Scheduler.Tick.{
  TickHost, no_fault, write_raises, TickResult, Store, tick_schedules,
}
use smoking_data.Runtime.Scheduler.Tick.Laws.{tick_schedules-IsExclusive}
use smoking_data.Runtime.Scheduler.Tick.Checked.{IsSettled, tick_schedules-IsSettled}

-- Decimal digits, as `int` reads them.
abbrev is_digit : ℕ → Bool
is_digit c = leb b'0' c && leb c b'9'

abbrev decimal : ℕ → Text → ℕ
decimal n [] = n
decimal n (c ∷ t) = decimal (n * 10 + (c - b'0')) t

abbrev digits : Text → Option Integer
digits t =
    if is_empty t then none else if all is_digit t then some (natural (decimal 0 t)) else none

-- `*/15 9-17 * * 1,7`
abbrev fields : List Text
fields =
    (b'*' ∷ b'/' ∷ b'1' ∷ b'5' ∷ [])
    ∷ (b'9' ∷ b'-' ∷ b'1' ∷ b'7' ∷ [])
    ∷ (b'*' ∷ [])
    ∷ (b'*' ∷ [])
    ∷ (b'1' ∷ b',' ∷ b'7' ∷ [])
    ∷ []

abbrev hours : List ℕ
hours = 9 ∷ 10 ∷ 11 ∷ 12 ∷ 13 ∷ 14 ∷ 15 ∷ 16 ∷ 17 ∷ []

program : Unit {0}
unfolding parse_cron parse_cron_field steps range matches_parsed cron_matches due_occurrence
    latest_match last_checked claim_occurrence set_status run_targets_sequentially tick_schedules
program = tt

abbrev steps_from : ℕ → ℕ → List ℕ
steps_from zero n = []
steps_from (suc k) n = n ∷ steps_from k (suc n)

abbrev cron : Cron
cron = record {
  minute = 0 ∷ 15 ∷ 30 ∷ 45 ∷ [];
  hour = hours;
  day = steps_from 31 1;
  month = steps_from 12 1;
  weekday = 1 ∷ 0 ∷ [];
}

parse_cron-fields : parse_cron digits fields ≡ some cron
unfolding program
parse_cron-fields = refl

parse_cron-IsCalendar_example : IsCalendar cron
parse_cron-IsCalendar_example = parse_cron-IsCalendar digits fields cron parse_cron-fields

range_iff_example :
    (any (λ x. x == 50) (range 5 59 15) ≡ true) ↔ ((i : ℕ) × (50 ≡ 5 + i * 15) × (50 ≤ 59))
range_iff_example = range_iff 50 5 59 15 (omega arith) (omega arith)

-- Mondays and Sundays alone matter here, so a week of one month serves as the calendar.
abbrev week : ℕ → LocalTime
week m = record { minute = m % 60; hour = m / 60 % 24; day = 1; month = 1; weekday = m / 1440 % 7 }

abbrev target : String → ScheduleTarget
target x = record { alias = x; kind = asset; definition = "job.yaml"; target_key = x }

abbrev spec : ScheduleSpec
spec = record {
  alias = "daily";
  definition_key = "k";
  revision_hash = "r";
  enabled = true;
  cron = fields;
  targets = target "load" ∷ target "bad" ∷ target "report" ∷ [];
  misfire = catch_up_once;
  timeout_minutes = 180;
}

abbrev checked_before : List ScheduleRow
checked_before =
    record {
      definition_key = "k";
      revision_hash = "r";
      last_alias = "daily";
      last_checked_at = 540;
    }
    ∷ []

-- Last checked at 9:00, and asked at 9:20: due since 9:15.
due_runs : due_occurrence digits week checked_before spec 560 ≡ some (some 555)
unfolding program
due_runs = refl

due_occurrence-IsLatest_example :
    (r : Option ℕ) × (due_occurrence digits week checked_before spec 560 ≡ some r)
    × IsLatest
        (λ minute. matches_parsed fields cron (week minute))
        (due_from catch_up_once (last_checked "k" checked_before) 560)
        561
        r
due_occurrence-IsLatest_example =
    due_occurrence-IsLatest digits week checked_before spec 560 cron parse_cron-fields

abbrev first_row : List OccurrenceRow
first_row = (claim_occurrence spec "o" 555 1000 1001 []).1

first_claimed : (claim_occurrence spec "o" 555 1000 1001 []).0 ≡ none
unfolding program
first_claimed = refl

abbrev ended_row : List OccurrenceRow
ended_row = set_status "o" success first_row

abbrev first_ends : Changes first_row ended_row
first_ends = step first_row ended_row ended_row (ended "o" success first_row refl) (done ended_row)

claim_occurrence-once_example :
    claim_occurrence spec "o" 555 2000 2001 ended_row
    ≡ (some (refusal spec "o" 555 duplicate), ended_row)
claim_occurrence-once_example =
    claim_occurrence-once spec spec "o" 555 1000 1001 555 2000 2001 [] ended_row first_claimed
      first_ends

no_rows-IsExclusive : IsExclusive []
no_rows-IsExclusive = record { distinct = refl; single = λ d. omega arith }

abbrev claim_and_end : Changes [] ended_row
claim_and_end = step [] first_row ended_row (claimed spec "o" 555 1000 1001 []) first_ends

Changes-IsExclusive_example : IsExclusive ended_row
Changes-IsExclusive_example = Changes-IsExclusive [] ended_row claim_and_end no_rows-IsExclusive

-- The world is the log of the executed targets; the target "bad" fails.
abbrev run_target : List String → ScheduleTarget → Execution × List String
run_target log t = (
  if str_eq t.alias "bad"
      then raised "ValueError" "no rows"
      else payload true (some "run-1") none none,
  log ++ t.alias ∷ [],
)

targets_run :
    (run_targets_sequentially run_target "o" (spec.targets) [] []).1.1 ≡ "load" ∷ "bad" ∷ []
unfolding program
targets_run = refl

run_targets_sequentially-IsSequence_example :
    IsSequence run_target 0 []
      (spec.targets)
      (run_targets_sequentially run_target "o" (spec.targets) [] []).0
      (run_targets_sequentially run_target "o" (spec.targets) [] []).1.1
run_targets_sequentially-IsSequence_example =
    run_targets_sequentially-IsSequence run_target "o" (spec.targets) [] []

o-ne : ◌≢◌ {A = String} "p" "o"
o-ne h = ground (arith, h, eq_iff "p" "o")

find-run_targets_sequentially_example :
    All
      (λ r.
        find_target "o" r.index (run_targets_sequentially run_target "o" (spec.targets) [] []).1.0
        ≡ some r)
      (run_targets_sequentially run_target "o" (spec.targets) [] []).0
    × (find_target "p" 0 (run_targets_sequentially run_target "o" (spec.targets) [] []).1.0
        ≡ find_target "p" 0 [])
find-run_targets_sequentially_example =
    find-run_targets_sequentially run_target "o" (spec.targets) [] [] "p" 0 o-ne

abbrev host : TickHost
host = record {
  World = List String;
  int = digits;
  local = λ s. week;
  occurrence_key = λ s m. s.definition_key;
  clock = λ log. (1000, log);
  fault = λ s log. no_fault;
  executor = λ s. run_target;
}

abbrev before_tick : Store (List String)
before_tick = record { schedules = checked_before; occurrences = []; targets = []; world = [] }

tick_schedules-IsExclusive_example :
    IsExclusive (tick_schedules host true (spec ∷ []) 560 before_tick).1.occurrences
    × (((tick_schedules host true (spec ∷ []) 560 before_tick).0 ≡ none)
        ⊎ (count_running "k" (tick_schedules host true (spec ∷ []) 560 before_tick).1.occurrences
            ≤ count_running "k" []))
tick_schedules-IsExclusive_example =
    tick_schedules-IsExclusive host true (spec ∷ []) 560 before_tick "k" no_rows-IsExclusive

-- Where the update of the occurrence raises, the tick ends with the occurrence running.
left_running :
    count_running "k"
      (tick_schedules
        (record host { fault = λ s log. write_raises 9 })
        true
        (spec ∷ [])
        560
        before_tick).1.occurrences
    ≡ 1
unfolding program
left_running = refl

tick_ran : (r : TickResult) × ((tick_schedules host true (spec ∷ []) 560 before_tick).0 ≡ some r)
unfolding program
tick_ran = (_, refl)

tick_schedules-IsSettled_example :
    All
      (IsSettled host 560 (tick_schedules host true (spec ∷ []) 560 before_tick).1.schedules)
      (spec ∷ [])
tick_schedules-IsSettled_example =
    tick_schedules-IsSettled host (spec ∷ []) 560 before_tick (tick_ran.0) (tick_ran.1)
