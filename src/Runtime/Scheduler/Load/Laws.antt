-- ===== src/Runtime/Scheduler/Load/Laws.antt =====
-- What a schedule that is loaded satisfies.
use smoking_data.Prelude.{
  ℕ, ◌≤◌, ◌≡◌, refl, false, Option, none, some, List, [], ◌∷◌, arith, is_empty, ◌⊎◌, Option-cases,
  inl, inr,
}
use smoking_data.Prelude.Result.{Result, ok, err}
use smoking_data.Runtime.Yaml.{Yaml, natural, sequence, Values, value, get}
use smoking_data.Runtime.Scheduler.Cron.{Cron, parse_cron}
use smoking_data.Runtime.Scheduler.Store.{ScheduleTarget, ScheduleSpec, Misfire}
use smoking_data.Runtime.Scheduler.Load.{
  LoadHost, Timing, load_timing, load_policy, load_target, load_targets, load_schedule_spec,
  timeout_of, spec_of, or_empty, as_mapping, as_targets,
}

Result-cases : {E A : Type 0} (r : Result E A) → ((a : A) × (r ≡ ok a)) ⊎ ((e : E) × (r ≡ err e))
Result-cases (ok a) = inl (a, refl)
Result-cases (err e) = inr (e, refl)

timeout_of-pos : (host : LoadHost) (v : Option Yaml) (n : ℕ) → timeout_of host v ≡ ok n → 1 ≤ n
timeout_of-pos host none n h = ground arith
timeout_of-pos host (some (natural m)) n h = ground arith
timeout_of-pos host (some _) n h = cc

load_policy-pos :
    (host : LoadHost) (section : Yaml) (p : Misfire × ℕ) → load_policy host section ≡ ok p → 1 ≤ p.1
unfolding load_policy
load_policy-pos host section p h = ground (arith, timeout_of-pos host)

load_timing-cron :
    (host : LoadHost) (section : Yaml) (t : Timing)
    → load_timing host section ≡ ok t
    → (c : Cron) × (parse_cron (host.int) t.cron ≡ some c)
unfolding load_timing
load_timing-cron host section t h = elim (Option-cases (parse_cron (host.int) t.cron)) [
  | inl bad ↦ absurd (ground arith)
  | inr found ↦ found
]

load_targets-ne_nil :
    (host : LoadHost) (section : Yaml) (raws : Values) (targets : List ScheduleTarget)
    → as_targets host section ≡ ok raws
    → load_targets host raws [] ≡ ok targets
    → is_empty targets ≡ false
unfolding load_targets
load_targets-ne_nil host (sequence (value v vs)) raws targets h k =
    let same : value v vs ≡ raws = cc in
    let given : load_targets host (value v vs) [] ≡ ok targets = rw same k in
    elim (Result-cases (load_target host v [])) [
      | inl (t, e) ↦ elim (Result-cases (load_targets host vs (t.alias ∷ []))) [
        | inl (ts, e') ↦ ground arith
        | inr (x, e') ↦ ground arith
      ]
      | inr (x, e) ↦ ground arith
    ]
load_targets-ne_nil host _ raws targets h k = cc

-- A schedule file that is accepted gives a schedule whose cron expression is valid, which has at least
-- one target and a timeout of at least a minute.
pub load_schedule_spec-valid :
    (host : LoadHost) (root : Yaml) (spec : ScheduleSpec)
    → load_schedule_spec host root ≡ ok spec
    → ((c : Cron) × (parse_cron (host.int) spec.cron ≡ some c))
      × (is_empty spec.targets ≡ false)
      × (1 ≤ spec.timeout_minutes)
unfolding load_schedule_spec
load_schedule_spec-valid host root spec h = elim (Result-cases (as_mapping (or_empty root) "$")) [
  | inr (x, e) ↦ absurd (ground arith)
  | inl (payload, e0) ↦ elim (Result-cases (load_timing host (get "schedule" payload))) [
    | inr (x, e) ↦ absurd (ground arith)
    | inl (timing, e1) ↦ elim (Result-cases (as_targets host (get "targets" payload))) [
      | inr (x, e) ↦ absurd (ground arith)
      | inl (raws, e2) ↦ elim (Result-cases (load_targets host raws [])) [
        | inr (x, e) ↦ absurd (ground arith)
        | inl (targets, e3) ↦ elim (Result-cases (load_policy host (get "policy" payload))) [
          | inr (x, e) ↦ absurd (ground arith)
          | inl (policy, e4) ↦
              let same : spec_of host timing targets policy ≡ spec = ground arith in
              rw (← same) (
                load_timing-cron host (get "schedule" payload) timing e1,
                load_targets-ne_nil host (get "targets" payload) raws targets e2 e3,
                load_policy-pos host (get "policy" payload) policy e4,
              )
        ]
      ]
    ]
  ]
]
