-- ===== src/Runtime/Scheduler/Due.antt =====
-- `_due_occurrence` of src/smoking_data/runtime/scheduler.py: the minute that a schedule is due for.
-- Python's `int` and the conversion to the schedule's time zone are parameters.
use smoking_data.Prelude.{
  ℕ, zero, suc, ◌+◌, ◌-◌, ◌*◌, ◌≤◌, ◌<◌, ◌≡◌, refl, max, Bool, true, false, Option, none, some,
  List, arith, ltb, leb, subst, if◌then◌else◌, Bool-cases, inl, inr,
}
use smoking_data.Runtime.Scheduler.Cron.{
  Text, Integer, Cron, LocalTime, parse_cron, matches_parsed, cron_matches,
}
use smoking_data.Runtime.Scheduler.Store.{
  ScheduleSpec, ScheduleRow, Misfire, skip, catch_up_once, last_checked,
}

abbrev pub max_catch_up_minutes : ℕ
max_catch_up_minutes = 7 * 24 * 60

-- The `while` loop; `fuel` counts its rounds and `none` is the error of an invalid expression.
unfoldable pub latest_match : (ℕ → Option Bool) → ℕ → ℕ → ℕ → Option ℕ → Option (Option ℕ)
latest_match matches zero candidate current latest = some latest
latest_match matches (suc fuel) candidate current latest =
    if leb candidate current
    then (elim (matches candidate) [
      | none ↦ none
      | some matched ↦
          latest_match matches fuel (suc candidate) current
            (if matched then some candidate else latest)
    ])
    else some latest

-- The current minute where it matches.
abbrev pub only_now : (ℕ → Option Bool) → ℕ → Option (Option ℕ)
only_now matches current = elim (matches current) [
  | none ↦ none
  | some matched ↦ some (if matched then some current else none)
]

-- `max(previous + 1, current - catch-up)`; the subtraction stops at the first minute of the calendar.
abbrev pub catch_up_start : ℕ → ℕ → ℕ
catch_up_start previous current = max (previous + 1) (current - max_catch_up_minutes)

abbrev pub due_since : (ℕ → Option Bool) → Misfire → Option ℕ → ℕ → Option (Option ℕ)
due_since matches misfire none current = only_now matches current
due_since matches skip (some previous) current = only_now matches current
due_since matches catch_up_once (some previous) current =
    let start = catch_up_start previous current in
    latest_match matches (suc current - start) start current none

unfoldable pub due_occurrence :
    (Text → Option Integer)
    → (ℕ → LocalTime)
    → List ScheduleRow
    → ScheduleSpec
    → ℕ
    → Option (Option ℕ)
due_occurrence int local rows spec current =
    due_since (λ minute. cron_matches int spec.cron (local minute)) spec.misfire
      (last_checked spec.definition_key rows) current

-- The result is the last minute from `start` on and before `stop` that matches, or there is none.
pub data IsLatest (matches : ℕ → Bool) (start stop : ℕ) : Option ℕ → Type 0 where
  latest :
      (minute : ℕ)
      → start ≤ minute
      → minute < stop
      → matches minute ≡ true
      → ((later : ℕ) → minute < later → later < stop → matches later ≡ false)
      → IsLatest matches start stop (some minute)
  never :
      ((minute : ℕ) → start ≤ minute → minute < stop → matches minute ≡ false)
      → IsLatest matches start stop none

-- The first minute that a schedule looks at: the current one where it was never checked or skips
-- what it missed, otherwise the minute after the last check, or the start of the last seven days.
abbrev pub due_from : Misfire → Option ℕ → ℕ → ℕ
due_from misfire none current = current
due_from skip (some previous) current = current
due_from catch_up_once (some previous) current = max (previous + 1) (current - 10080)

module _ (matches : ℕ → Bool) (tests : ℕ → Option Bool)
    (total : (m : ℕ) → tests m ≡ some (matches m)) where
  at_match : (start n : ℕ) → start ≤ n → matches n ≡ true → IsLatest matches start (suc n) (some n)
  at_match start n h m =
      latest n (omega arith) (omega arith) m (λ later lt le. absurd (omega arith))

  past_miss :
      (start n : ℕ) (r : Option ℕ)
      → IsLatest matches start n r
      → matches n ≡ false
      → IsLatest matches start (suc n) r
  past_miss start n _ (latest minute h k m rest) miss =
      latest minute h (omega arith) m (λ later lt le. elim (Bool-cases (ltb later n)) [
        | inl before ↦ rest later lt (ground arith)
        | inr not_before ↦ let same : later ≡ n = ground arith in rw same miss
      ])
  past_miss start n _ (never rest) miss = never (λ minute h lt. elim (Bool-cases (ltb minute n)) [
    | inl before ↦ rest minute h (ground arith)
    | inr not_before ↦ let same : minute ≡ n = ground arith in rw same miss
  ])

  latest_match-IsLatest :
      (fuel start candidate current : ℕ) (r : Option ℕ)
      → suc current ≤ candidate + fuel
      → start ≤ candidate
      → candidate ≤ suc current
      → IsLatest matches start candidate r
      → (last : Option ℕ) × (latest_match tests fuel candidate current r ≡ some last)
        × IsLatest matches start (suc current) last
  unfolding latest_match
  latest_match-IsLatest zero start candidate current r enough h k inv =
      let same : candidate ≡ suc current = omega arith in
      (r, refl, subst (λ c. IsLatest matches start c r) same inv)
  latest_match-IsLatest (suc fuel) start candidate current r enough h k inv =
      elim (Bool-cases (leb candidate current)) [
        | inl go ↦ elim (Bool-cases (matches candidate)) [
          | inl hit ↦
              rw (go, total candidate, hit)
                (latest_match-IsLatest fuel start (suc candidate) current (some candidate)
                  (omega arith) (omega arith) (ground arith) (at_match start candidate h hit))
          | inr miss ↦
              rw (go, total candidate, miss)
                (latest_match-IsLatest fuel start (suc candidate) current r (omega arith)
                  (omega arith) (ground arith) (past_miss start candidate r inv miss))
        ]
        | inr done ↦
            let same : candidate ≡ suc current = ground arith in
            (r, rw done refl, subst (λ c. IsLatest matches start c r) same inv)
      ]

  only_now-IsLatest :
      (current : ℕ)
      → (r : Option ℕ) × (only_now tests current ≡ some r)
        × IsLatest matches current (suc current) r
  only_now-IsLatest current = elim (Bool-cases (matches current)) [
    | inl hit ↦ (
      some current,
      rw (only_now, total current, hit) refl,
      at_match current current (omega arith) hit,
    )
    | inr miss ↦ (
      none,
      rw (only_now, total current, miss) refl,
      past_miss current current none (never (λ minute h k. absurd (omega arith))) miss,
    )
  ]

  due_since-IsLatest :
      (misfire : Misfire) (previous : Option ℕ) (current : ℕ)
      → (r : Option ℕ) × (due_since tests misfire previous current ≡ some r)
        × IsLatest matches (due_from misfire previous current) (suc current) r
  unfolding latest_match
  due_since-IsLatest misfire none current = only_now-IsLatest current
  due_since-IsLatest skip (some previous) current = only_now-IsLatest current
  due_since-IsLatest catch_up_once (some previous) current =
      let start = due_from catch_up_once (some previous) current in
      let nothing : IsLatest matches start start none =
        never (λ minute h k. absurd (omega arith)) in
      elim (Bool-cases (leb start (suc current))) [
        | inl in_order ↦
            latest_match-IsLatest (suc current - start) start start current none (ground arith)
              (omega arith) (ground arith) nothing
        | inr ahead ↦ (
          none,
          let no_round : suc current - start ≡ 0 = ground arith in rw no_round refl,
          never (λ minute h k. absurd (ground arith)),
        )
      ]

-- The occurrence that a schedule with a valid cron expression is due for is the last minute, from
-- its first open minute up to the current one, whose local time the expression matches; the
-- schedule is not due exactly when there is no such minute.
pub due_occurrence-IsLatest :
    (int : Text → Option Integer) (local : ℕ → LocalTime) (rows : List ScheduleRow)
    (spec : ScheduleSpec) (current : ℕ) (c : Cron)
    → parse_cron int spec.cron ≡ some c
    → (r : Option ℕ) × (due_occurrence int local rows spec current ≡ some r)
      × IsLatest
          (λ minute. matches_parsed spec.cron c (local minute))
          (due_from spec.misfire (last_checked spec.definition_key rows) current)
          (suc current)
          r
unfolding due_occurrence cron_matches
due_occurrence-IsLatest int local rows spec current c valid =
    due_since-IsLatest (λ minute. matches_parsed spec.cron c (local minute))
      (λ minute. cron_matches int spec.cron (local minute))
      (λ minute. rw (cron_matches, valid) refl) spec.misfire (last_checked spec.definition_key rows)
      current
