-- ===== src/Runtime/Scheduler/Tick/Checked.antt =====
-- The time of the last check that a tick records for each schedule.
use smoking_data.Prelude.{
  ℕ, suc, ◌-◌, ◌≡◌, ◌⊎◌, refl, ◌∙◌, Bool-cases, subst, sym, Bool, true, String, Option, none, some,
  List, [], ◌∷◌, arith, eq_iff, All, All-map, Option-cases, inl, inr, if-elim,
}
use smoking_data.Runtime.Scheduler.Store.{
  ScheduleSpec, OccurrenceRow, ScheduleRow, ScheduleOccurrence, Misfire, skip, catch_up_once,
  last_checked, upsert_schedule_state,
}
use smoking_data.Runtime.Scheduler.Due.{due_occurrence, due_since, latest_match, catch_up_start}
use smoking_data.Runtime.Scheduler.Claim.{claim_occurrence}
use smoking_data.Runtime.Scheduler.Cron.{cron_matches}
use smoking_data.Runtime.Scheduler.Tick.{
  TickHost, TickResult, Store, claim_fails, written_targets, checked_due, run_claimed,
  run_occurrence, with_check, reported, tick_due, tick_schedule, tick_all, tick_schedules,
}

last_checked-upsert :
    (spec : ScheduleSpec) (current : ℕ) (rows : List ScheduleRow)
    → last_checked spec.definition_key (upsert_schedule_state spec current rows) ≡ some current
unfolding last_checked upsert_schedule_state
last_checked-upsert spec current [] = ground (arith, eq_iff spec.definition_key spec.definition_key)
last_checked-upsert spec current (row ∷ rows) =
    ground (arith, last_checked-upsert spec current rows)

last_checked-kept :
    (spec : ScheduleSpec) (current : ℕ) (key : String) (rows : List ScheduleRow)
    → last_checked key rows ≡ some current
    → last_checked key (upsert_schedule_state spec current rows) ≡ some current
unfolding last_checked upsert_schedule_state
last_checked-kept spec current key [] h = cc
last_checked-kept spec current key (row ∷ rows) h =
    ground (arith, h, last_checked-kept spec current key rows)

due_since-checked :
    (tests : ℕ → Option Bool) (misfire : Misfire) (previous : Option ℕ) (current : ℕ)
    → misfire ≡ catch_up_once
    → previous ≡ some current
    → due_since tests misfire previous current ≡ some none
unfolding latest_match
due_since-checked tests misfire previous current m h =
    let no_round : suc current - catch_up_start current current ≡ 0 = omega arith in
    rw (m, h, no_round) refl

module _ (host : TickHost) where
  run_claimed-schedules :
      (spec : ScheduleSpec) (at : ℕ) (rows : List OccurrenceRow) (s : Store (host.World))
      (w : host.World) (written : Option ℕ)
      → (run_claimed host spec at rows s w written).1.schedules ≡ s.schedules
  unfolding run_claimed
  run_claimed-schedules spec at rows s w none = refl
  run_claimed-schedules spec at rows s w (some n) = refl

  run_occurrence-schedules :
      (spec : ScheduleSpec) (at : ℕ) (s : Store (host.World))
      → (run_occurrence host spec at s).1.schedules ≡ s.schedules
  unfolding run_occurrence
  run_occurrence-schedules spec at s =
      let now = host.clock s.world in
      let started = host.clock now.1 in
      let key = host.occurrence_key spec at in
      elim (Bool-cases (claim_fails (host.fault spec s.world))) [
        | inl unclaimed ↦ rw (run_occurrence, unclaimed) refl
        | inr may_claim ↦
            elim (Option-cases (claim_occurrence spec key at now.0 started.0 s.occurrences).0) [
              | inl claimed ↦
                  rw (run_occurrence, may_claim, claimed)
                    (run_claimed-schedules spec at _ s started.1
                      (written_targets (host.fault spec s.world)))
              | inr (refused, no_claim) ↦ rw (run_occurrence, may_claim, no_claim) refl
            ]
      ]

  reported-schedules :
      (r : Option ScheduleOccurrence × Store (host.World))
      → (reported host r).1.schedules ≡ r.1.schedules
  reported-schedules (none, s) = refl
  reported-schedules (some occurrence, s) = refl

  tick_due-schedules :
      (spec : ScheduleSpec) (current : ℕ) (s : Store (host.World)) (due : Option ℕ)
      → (tick_due host spec current s (some due)).1.schedules
        ≡ upsert_schedule_state spec current s.schedules
  unfolding tick_due
  tick_due-schedules spec current s none = refl
  tick_due-schedules spec current s (some at) =
      let checked = with_check host spec current s in
      if-elim (λ r. r.1.schedules ≡ checked.schedules) spec.enabled
        (reported host (run_occurrence host spec at checked)) (some none, checked)
        (reported-schedules (run_occurrence host spec at checked)
          ∙ run_occurrence-schedules spec at checked)
        refl

  -- A schedule that the tick has come to keeps its time.
  tick_due-kept :
      (spec : ScheduleSpec) (current : ℕ) (s : Store (host.World)) (due : Option (Option ℕ))
      (key : String)
      → last_checked key s.schedules ≡ some current
      → last_checked key (tick_due host spec current s due).1.schedules ≡ some current
  unfolding tick_due
  tick_due-kept spec current s none key h = h
  tick_due-kept spec current s (some due) key h =
      rw (tick_due-schedules spec current s due) (last_checked-kept spec current key s.schedules h)

  tick_all-kept :
      (specs : List ScheduleSpec) (current : ℕ) (s : Store (host.World)) (key : String)
      → last_checked key s.schedules ≡ some current
      → last_checked key (tick_all host specs current s).1.schedules ≡ some current
  unfolding tick_all tick_schedule
  tick_all-kept [] current s key h = h
  tick_all-kept (spec ∷ specs) current s key h =
      let due = checked_due host spec current s in
      let s' = (tick_due host spec current s due).1 in
      let first = tick_due-kept spec current s due key h in
      let both = tick_all-kept specs current s' key first in
      elim (Option-cases (tick_due host spec current s due).0) [
        | inl stopped ↦ rw (tick_all, stopped) first
        | inr (o, ran) ↦ elim (Option-cases (tick_all host specs current s').0) [
          | inl stopped ↦ rw (tick_all, ran, stopped) both
          | inr (os, all_ran) ↦ rw (tick_all, ran, all_ran) both
        ]
      ]

  abbrev IsChecked : ℕ → List ScheduleRow → ScheduleSpec → Type 0
  IsChecked current rows spec = last_checked spec.definition_key rows ≡ some current

  tick_due-IsChecked :
      (spec : ScheduleSpec) (current : ℕ) (s : Store (host.World)) (due : Option (Option ℕ))
      (o : Option ScheduleOccurrence)
      → (tick_due host spec current s due).0 ≡ some o
      → IsChecked current (tick_due host spec current s due).1.schedules spec
  unfolding tick_due
  tick_due-IsChecked spec current s none o h = cc
  tick_due-IsChecked spec current s (some due) o h =
      rw (tick_due-schedules spec current s due) (last_checked-upsert spec current s.schedules)

  tick_all-IsChecked :
      (specs : List ScheduleSpec) (current : ℕ) (s : Store (host.World))
      (os : List ScheduleOccurrence)
      → (tick_all host specs current s).0 ≡ some os
      → All (IsChecked current (tick_all host specs current s).1.schedules) specs
  unfolding tick_all tick_schedule
  tick_all-IsChecked [] current s os h = tt
  tick_all-IsChecked (spec ∷ specs) current s os h =
      let due = checked_due host spec current s in
      let s' = (tick_due host spec current s due).1 in
      elim (Option-cases (tick_due host spec current s due).0) [
        | inl stopped ↦ absurd (ground arith)
        | inr (o, ran) ↦ elim (Option-cases (tick_all host specs current s').0) [
          | inl stopped ↦ absurd (ground arith)
          | inr (rest, all_ran) ↦
              let same : (tick_all host (spec ∷ specs) current s).1
                  ≡ (tick_all host specs current s').1 =
                rw (tick_all, ran, all_ran) refl in
              subst (λ after. All (IsChecked current after.schedules) (spec ∷ specs)) (sym same)
                (
                  tick_all-kept specs current s' spec.definition_key
                      (tick_due-IsChecked spec current s due o ran),
                  tick_all-IsChecked specs current s' rest all_ran,
                )
        ]
      ]

  not_due_again :
      (spec : ScheduleSpec) (current : ℕ) (rows : List ScheduleRow)
      → spec.misfire ≡ catch_up_once
      → IsChecked current rows spec
      → due_occurrence host.int (host.local spec) rows spec current ≡ some none
  unfolding due_occurrence
  not_due_again spec current rows m h =
      due_since-checked (λ minute. cron_matches host.int spec.cron (host.local spec minute))
        spec.misfire (last_checked spec.definition_key rows) current m h

  -- The schedule was checked at the minute, and is not due in it again unless it skips.
  abbrev pub IsSettled : ℕ → List ScheduleRow → ScheduleSpec → Type 0
  IsSettled current rows spec =
      (last_checked spec.definition_key rows ≡ some current)
      × ((spec.misfire ≡ skip)
          ⊎ (due_occurrence host.int (host.local spec) rows spec current ≡ some none))

  Misfire-cases : (m : Misfire) → (m ≡ skip) ⊎ (m ≡ catch_up_once)
  Misfire-cases skip = inl refl
  Misfire-cases catch_up_once = inr refl

  IsChecked-IsSettled :
      (spec : ScheduleSpec) (current : ℕ) (rows : List ScheduleRow)
      → IsChecked current rows spec
      → IsSettled current rows spec
  IsChecked-IsSettled spec current rows checked = elim (Misfire-cases spec.misfire) [
    | inl skips ↦ (checked, inl skips)
    | inr catches ↦ (checked, inr (not_due_again spec current rows catches checked))
  ]

  -- A tick that completes records its minute as the last check of each of its schedules; a schedule
  -- that catches up is then not due again in this minute.
  pub tick_schedules-IsSettled :
      (specs : List ScheduleSpec) (current : ℕ) (s : Store (host.World)) (r : TickResult)
      → (tick_schedules host true specs current s).0 ≡ some r
      → All (IsSettled current (tick_schedules host true specs current s).1.schedules) specs
  unfolding tick_schedules
  tick_schedules-IsSettled specs current s r h =
      elim (Option-cases (tick_all host specs current s).0) [
        | inl stopped ↦ absurd (ground arith)
        | inr (os, ran) ↦
            let after = (tick_all host specs current s).1 in
            let same : (tick_schedules host true specs current s).1 ≡ after =
              rw (tick_schedules, ran) refl in
            subst (λ st. All (IsSettled current st.schedules) specs) (sym same)
              (All-map (IsSettled current after.schedules) specs
                (λ spec checked. IsChecked-IsSettled spec current after.schedules checked)
                (tick_all-IsChecked specs current s os ran))
      ]
