-- ===== src/Runtime/Scheduler/Load/Examples.antt =====
-- The loading of a schedule file on concrete values.
use smoking_data.Prelude.{
  ◌≤◌, ◌≡◌, refl, String, true, false, none, some, [], ◌∷◌, is_empty, if◌then◌else◌, str_eq,
}
use smoking_data.Prelude.Result.{ok, err}
use smoking_data.Runtime.Yaml.{
  Yaml, text, sequence, mapping, Entries, empty, entry, end, value, invalid_cron, reject_unknown,
  unknown_keys, lookup, required_string,
}
use smoking_data.Runtime.Scheduler.Cron.{Cron, star, parse_cron, parse_cron_field}
use smoking_data.Runtime.Scheduler.Store.{ScheduleSpec}
use smoking_data.Runtime.Scheduler.Load.{LoadHost, load_target, load_schedule_spec}
use smoking_data.Runtime.Scheduler.Load.Laws.{load_schedule_spec-valid}

abbrev plain : Yaml → String
plain (text s) = s
plain _ = ""

abbrev host : LoadHost
host = record {
  strip = plain;
  str = plain;
  known_timezone = λ z. str_eq z "UTC";
  split = λ s. if str_eq s "* * * * *" then star ∷ star ∷ star ∷ star ∷ star ∷ [] else [];
  int = λ t. none;
  resolve = λ p. p;
  is_file = λ p. true;
  target_asset_code = λ p. "0201";
  target_key = λ k p. p;
  revision_hash = λ e z c ts m n. "r";
  definition_key = "k";
}

abbrev section : String → Entries
section cron =
    entry "alias" (text "daily") (entry "timezone" (text "UTC") (entry "cron" (text cron) empty))

abbrev target : Yaml
target = mapping (
    entry "alias" (text "load")
      (entry "kind" (text "asset") (entry "definition" (text "load.0201.yaml") empty)))

abbrev file : String → Yaml
file cron = mapping (
    entry "yaml" (mapping (entry "schema_version" (text "smoking-data.schedule.v1") empty)) (
      entry "schedule" (mapping (section cron))
        (entry "targets" (sequence (value target end)) empty)))

program : Unit {0}
unfolding load_schedule_spec load_target reject_unknown unknown_keys lookup required_string
    parse_cron parse_cron_field
program = tt

accepted : (spec : ScheduleSpec) × (load_schedule_spec host (file "* * * * *") ≡ ok spec)
unfolding program
accepted = (_, refl)

timeout_default : accepted.0.timeout_minutes ≡ 180
unfolding accepted program
timeout_default = refl

bad_cron : load_schedule_spec host (file "* * *") ≡ err invalid_cron
unfolding program
bad_cron = refl

load_schedule_spec-valid_example :
    ((c : Cron) × (parse_cron (host.int) (accepted.0.cron) ≡ some c))
    × (is_empty (accepted.0.targets) ≡ false)
    × (1 ≤ accepted.0.timeout_minutes)
load_schedule_spec-valid_example =
    load_schedule_spec-valid host (file "* * * * *") (accepted.0) (accepted.1)
