-- ===== src/Runtime/Scheduler/Load.antt =====
-- `load_schedule_spec` of src/smoking_data/runtime/scheduler.py on the value that the YAML file holds.
-- Python's text functions, the time zones, the paths and the digests are the record `LoadHost`.
pub mod Laws
mod Examples
use smoking_data.Prelude.{
  ℕ, String, Bool, true, false, not, ◌&&◌, ◌||◌, Option, none, some, List, [], ◌∷◌, ◌++◌, leb,
  if◌then◌else◌, str_eq,
}
use smoking_data.Prelude.Names.{contains}
use smoking_data.Prelude.Result.{Result, ok, err, ◌>>=◌, ◌>>◌}
use smoking_data.Runtime.Yaml.{
  Yaml, null, boolean, natural, text, sequence, mapping, Values, end, value, Entries, empty,
  LoadError, invalid_schema_version, invalid_cron, invalid_misfire_policy, invalid_type,
  invalid_timezone, duplicate_target_alias, unsupported_target_kind, target_missing,
  target_kind_mismatch, falsy, lookup, get, as_mapping, reject_unknown, required_string,
}
use smoking_data.Runtime.Scheduler.Cron.{Text, Integer, parse_cron}
use smoking_data.Runtime.Scheduler.Store.{
  ScheduleTarget, TargetKind, asset, chain, Misfire, skip, catch_up_once, ScheduleSpec,
}

pub record LoadHost : Type 0 where
  -- `str(value).strip()`
  pub strip : Yaml → String
  -- `str(value)`
  pub str : Yaml → String
  pub known_timezone : String → Bool
  -- `expression.split()`
  pub split : String → List Text
  pub int : Text → Option Integer
  -- a target's path, from its definition's directory
  pub resolve : String → String
  pub is_file : String → Bool
  pub target_asset_code : String → String
  pub target_key : TargetKind → String → String
  pub revision_hash : Bool → String → List Text → List ScheduleTarget → Misfire → ℕ → String
  pub definition_key : String

abbrev pub asset_codes : List String
asset_codes = "0101" ∷ "0102" ∷ "0103" ∷ "0201" ∷ "0301" ∷ "0401" ∷ []

abbrev pub kind_of : String → Option TargetKind
kind_of s = if str_eq s "asset" then some asset else if str_eq s "chain" then some chain else none

abbrev pub kind_matches : TargetKind → String → Bool
kind_matches asset code = contains code asset_codes
kind_matches chain code = str_eq code "chain"

-- `payload or {}`
abbrev pub or_empty : Yaml → Yaml
or_empty v = if falsy v then mapping empty else v

abbrev pub is_schedule_version : Yaml → Result LoadError (Unit {0})
is_schedule_version (text s) =
    if str_eq s "smoking-data.schedule.v1" then ok tt else err invalid_schema_version
is_schedule_version _ = err invalid_schema_version

-- What the section `schedule` holds.
pub record Timing : Type 0 where
  pub alias : String
  pub enabled : Bool
  pub timezone : String
  pub cron : List Text

module _ (host : LoadHost) where
  open host use {
    strip, str, known_timezone, split, int, resolve, is_file, target_asset_code, target_key,
    revision_hash, definition_key,
  }

  unfoldable pub validate_target_definition : String → TargetKind → Result LoadError (Unit {0})
  validate_target_definition path kind =
      if not (is_file path)
      then err (target_missing path)
      else if not (kind_matches kind (target_asset_code path))
      then err (target_kind_mismatch path)
      else ok tt

  abbrev pub target_of : String → String → TargetKind → ScheduleTarget
  target_of alias path kind = record {
    alias = alias;
    kind = kind;
    definition = path;
    target_key = target_key kind path;
  }

  abbrev pub with_kind : Option TargetKind → String → Result LoadError TargetKind
  with_kind none kind = err (unsupported_target_kind kind)
  with_kind (some k) kind = ok k

  abbrev pub not_seen : String → List String → Result LoadError (Unit {0})
  not_seen alias aliases =
      if contains alias aliases then err (duplicate_target_alias alias) else ok tt

  -- One round of the loop over `targets`; the errors leave out the target's index.
  unfoldable pub load_target : Yaml → List String → Result LoadError ScheduleTarget
  unfolding reject_unknown required_string lookup validate_target_definition
  load_target raw aliases = do
    target ← as_mapping raw "targets[]"
    reject_unknown target ("alias" ∷ "kind" ∷ "definition" ∷ []) "targets[]"
    alias ← required_string strip (get "alias" target) "targets[].alias"
    not_seen alias aliases
    name ← required_string strip (get "kind" target) "targets[].kind"
    kind ← with_kind (kind_of name) name
    definition ← required_string strip (get "definition" target) "targets[].definition"
    validate_target_definition (resolve definition) kind
    ok (target_of alias (resolve definition) kind)

  unfoldable pub load_targets : Values → List String → Result LoadError (List ScheduleTarget)
  unfolding load_target
  load_targets end aliases = ok []
  load_targets (value raw raws) aliases = elim (load_target raw aliases) [
    | err e ↦ err e
    | ok target ↦ elim (load_targets raws (target.alias ∷ aliases)) [
      | err e ↦ err e
      | ok targets ↦ ok (target ∷ targets)
    ]
  ]

  abbrev pub as_boolean : Option Yaml → String → Result LoadError Bool
  as_boolean none path = ok true
  as_boolean (some (boolean b)) path = ok b
  as_boolean (some v) path = err (invalid_type path)

  abbrev pub valid_timezone : String → Result LoadError (Unit {0})
  valid_timezone timezone =
      if known_timezone timezone then ok tt else err (invalid_timezone timezone)

  abbrev pub valid_cron : List Text → Result LoadError (Unit {0})
  valid_cron fields = elim (parse_cron int fields) [ none ↦ err invalid_cron | some c ↦ ok tt ]

  unfoldable pub load_timing : Yaml → Result LoadError Timing
  unfolding reject_unknown required_string lookup
  load_timing section = do
    schedule ← as_mapping section "schedule"
    reject_unknown schedule ("alias" ∷ "enabled" ∷ "timezone" ∷ "cron" ∷ []) "schedule"
    alias ← required_string strip (get "alias" schedule) "schedule.alias"
    enabled ← as_boolean (lookup "enabled" schedule) "schedule.enabled"
    timezone ← required_string strip (get "timezone" schedule) "schedule.timezone"
    valid_timezone timezone
    cron ← required_string strip (get "cron" schedule) "schedule.cron"
    valid_cron (split cron)
    ok (record { alias = alias; enabled = enabled; timezone = timezone; cron = split cron })

  abbrev pub as_targets : Yaml → Result LoadError Values
  as_targets (sequence (value v vs)) = ok (value v vs)
  as_targets _ = err (invalid_type "targets")

  abbrev pub misfire_of : String → Result LoadError Misfire
  misfire_of s =
      if str_eq s "skip"
      then ok skip
      else if str_eq s "catch_up_once"
      then ok catch_up_once
      else err invalid_misfire_policy

  abbrev pub timeout_of : Option Yaml → Result LoadError ℕ
  timeout_of none = ok 180
  timeout_of (some (natural n)) =
      if leb 1 n then ok n else err (invalid_type "policy.timeout_minutes")
  timeout_of (some v) = err (invalid_type "policy.timeout_minutes")

  -- What the section `policy` holds.
  unfoldable pub load_policy : Yaml → Result LoadError (Misfire × ℕ)
  unfolding reject_unknown lookup
  load_policy section = do
    policy ← as_mapping (or_empty section) "policy"
    reject_unknown policy ("misfire" ∷ "timeout_minutes" ∷ []) "policy"
    let chosen = get "misfire" policy
    misfire ← misfire_of (if falsy chosen then "catch_up_once" else str chosen)
    timeout_minutes ← timeout_of (lookup "timeout_minutes" policy)
    ok (misfire, timeout_minutes)

  -- The section `yaml`.
  unfoldable pub check_version : Yaml → Result LoadError (Unit {0})
  unfolding reject_unknown lookup
  check_version section = do
    header ← as_mapping section "yaml"
    reject_unknown header ("schema_version" ∷ []) "yaml"
    is_schedule_version (get "schema_version" header)

  abbrev pub spec_of : Timing → List ScheduleTarget → Misfire × ℕ → ScheduleSpec
  spec_of timing targets (misfire, timeout_minutes) = record {
    alias = timing.alias;
    definition_key = definition_key;
    revision_hash =
        revision_hash timing.enabled timing.timezone timing.cron targets misfire timeout_minutes;
    enabled = timing.enabled;
    cron = timing.cron;
    targets = targets;
    misfire = misfire;
    timeout_minutes = timeout_minutes;
  }

  unfoldable pub load_schedule_spec : Yaml → Result LoadError ScheduleSpec
  unfolding reject_unknown lookup check_version load_timing load_targets load_policy
  load_schedule_spec root = do
    payload ← as_mapping (or_empty root) "$"
    reject_unknown payload ("yaml" ∷ "schedule" ∷ "targets" ∷ "policy" ∷ []) "$"
    check_version (get "yaml" payload)
    timing ← load_timing (get "schedule" payload)
    raw_targets ← as_targets (get "targets" payload)
    targets ← load_targets raw_targets []
    policy ← load_policy (get "policy" payload)
    ok (spec_of timing targets policy)
