-- ===== src/Runtime/Scheduler/CronValues.antt =====
-- The values that cron fields stand for.
use native.Mathlib.Nat.{le-div_iff_mul-le, div-mul-le_self}
use smoking_data.Prelude.{
  ℕ, zero, suc, ◌+◌, ◌-◌, ◌*◌, ◌/◌, ◌≤◌, ◌<◌, ◌≡◌, ◌↔◌, refl, true, Option, some, List, [], ◌∷◌,
  ◌++◌, arith, ◌==◌, ==_iff, All, All-append, Option-cases, Bool-cases, inl, inr,
}
use smoking_data.Runtime.Scheduler.Cron.{
  Text, Integer, has_value, steps, range, split_from, before_code, parse_step, parse_bounds,
  parse_item, parse_items, parse_cron_field, Cron, fold_sunday, with_five, parse_cron,
}

steps_sound :
    (v n start step : ℕ)
    → has_value v (steps n start step) ≡ true
    → (i : ℕ) × (i < n) × (v ≡ start + i * step)
unfolding steps
steps_sound v zero start step h = cc
steps_sound v (suc n) start step h = elim (Bool-cases (start == v)) [
  | inl first ↦ (0, omega arith, let e = (==_iff start v).0 first in omega arith)
  | inr later ↦
      let (i, lt, e) = steps_sound v n (start + step) step (ground arith) in
      (suc i, omega arith, grind arith)
]

steps_complete :
    (v i n start step : ℕ) → i < n → v ≡ start + i * step → has_value v (steps n start step) ≡ true
unfolding steps
steps_complete v i zero start step h e = absurd (omega arith)
steps_complete v zero (suc n) start step h e = ground arith
steps_complete v (suc i) (suc n) start step h e =
    ground (arith, steps_complete v i n (start + step) step (omega arith) (grind arith))

-- For start ≤ end and a positive step, the range holds exactly the values that a number of steps
-- leads to from the start without passing the end.
pub range_iff :
    (v start end step : ℕ)
    → start ≤ end
    → 1 ≤ step
    → (has_value v (range start end step) ≡ true) ↔ ((i : ℕ) × (v ≡ start + i * step) × (v ≤ end))
unfolding range
range_iff v start end step h k = (
  λ m.
      let (i, lt, e) = steps_sound v (suc ((end - start) / step)) start step m in
      let within =
        (le-div_iff_mul-le k).0 (let le : i ≤ (end - start) / step = omega arith in le) in
      (i, e, omega arith),
  λ (i, e, le).
      let within : i ≤ (end - start) / step = (le-div_iff_mul-le k).1 (omega arith) in
      steps_complete v i (suc ((end - start) / step)) start step (omega arith) e,
)

abbrev pub InRange : ℕ → ℕ → List ℕ → Type 0
InRange minimum maximum values = All (λ v. (minimum ≤ v) × (v ≤ maximum)) values

steps-InRange :
    (n start step minimum maximum : ℕ)
    → minimum ≤ start
    → start + n * step ≤ maximum
    → InRange minimum maximum (steps (suc n) start step)
unfolding steps
steps-InRange zero start step minimum maximum h k = ((h, omega arith), tt)
steps-InRange (suc n) start step minimum maximum h k = (
  (h, omega arith),
  steps-InRange n (start + step) step minimum maximum (omega arith) (grind arith),
)

range-InRange :
    (start end step minimum maximum : ℕ)
    → 1 ≤ step
    → minimum ≤ start
    → start ≤ end
    → end ≤ maximum
    → InRange minimum maximum (range start end step)
unfolding range
range-InRange start end step minimum maximum pos h k l =
    let within : (end - start) / step * step ≤ end - start = div-mul-le_self (end - start) step in
    steps-InRange ((end - start) / step) start step minimum maximum h (omega arith)

module _ (int : Text → Option Integer) (minimum maximum : ℕ) where
  parse_step-pos : (item : Text) (step : ℕ) → parse_step int item ≡ some step → 1 ≤ step
  unfolding parse_step
  parse_step-pos item step h = ground arith

  parse_item-InRange :
      (item : Text) (values : List ℕ)
      → parse_item int minimum maximum item ≡ some values
      → InRange minimum maximum values
  unfolding parse_item
  parse_item-InRange item values h = elim (Option-cases (parse_step int item)) [
    | inl bad_step ↦ ground arith
    | inr (step, has_step) ↦
        elim (Option-cases (parse_bounds int minimum maximum (before_code b'/' item))) [
          | inl bad_bounds ↦ ground arith
          | inr ((start, end), has_bounds) ↦
              let same : range start end step ≡ values = ground arith in
              rw (← same) (
                range-InRange start end step minimum maximum (parse_step-pos item step has_step)
                  (ground arith) (ground arith) (ground arith))
        ]
  ]

  parse_items-InRange :
      (items : List Text) (values : List ℕ)
      → parse_items int minimum maximum items ≡ some values
      → InRange minimum maximum values
  unfolding parse_items
  parse_items-InRange [] values h = let same : ◌≡◌ {A = List ℕ} [] values = cc in rw (← same) tt
  parse_items-InRange (item ∷ items) values h =
      elim (Option-cases (parse_item int minimum maximum item)) [
        | inl bad ↦ ground arith
        | inr (first, has_first) ↦ elim (Option-cases (parse_items int minimum maximum items)) [
          | inl bad ↦ ground arith
          | inr (rest, has_rest) ↦
              let same : first ++ rest ≡ values = ground arith in
              rw (← same) (
                All-append (λ v. (minimum ≤ v) × (v ≤ maximum)) first rest
                  (parse_item-InRange item first has_first)
                  (parse_items-InRange items rest has_rest))
        ]
      ]

  pub parse_cron_field-InRange :
      (value : Text) (values : List ℕ)
      → parse_cron_field int minimum maximum value ≡ some values
      → InRange minimum maximum values
  unfolding parse_cron_field
  parse_cron_field-InRange value values h = parse_items-InRange (split_from b',' [] value) values h

-- Every value of a parsed cron expression is a minute, hour, day, month or weekday that exists, the
-- weekdays being 0 (Sunday) to 6.
pub record IsCalendar (c : Cron) : Type 0 where
  pub minutes : InRange 0 59 c.minute
  pub hours : InRange 0 23 c.hour
  pub days : InRange 1 31 c.day
  pub months : InRange 1 12 c.month
  pub weekdays : InRange 0 6 c.weekday

fold_sunday-InRange : (values : List ℕ) → InRange 0 7 values → InRange 0 6 (fold_sunday values)
fold_sunday-InRange [] h = tt
fold_sunday-InRange (v ∷ values) h = (ground arith, fold_sunday-InRange values h.1)

with_five-some :
    (a b c d e : Option (List ℕ)) (cron : Cron)
    → with_five a b c d e ≡ some cron
    → (a ≡ some cron.minute)
      × (b ≡ some cron.hour)
      × (c ≡ some cron.day)
      × (d ≡ some cron.month)
      × ((w : List ℕ) × (e ≡ some w) × (cron.weekday ≡ fold_sunday w))
with_five-some (some a) (some b) (some c) (some d) (some e) cron h =
    (ground arith, ground arith, ground arith, ground arith, (e, refl, ground arith))
with_five-some _ _ _ _ _ cron h = cc

-- For any meaning of `int`, an accepted expression has five fields whose values all exist in the
-- calendar: minutes to 59, hours to 23, days from 1 to 31, months from 1 to 12, weekdays to 6.
pub parse_cron-IsCalendar :
    (int : Text → Option Integer) (fields : List Text) (c : Cron)
    → parse_cron int fields ≡ some c
    → IsCalendar c
unfolding parse_cron
parse_cron-IsCalendar int (m ∷ h ∷ d ∷ mo ∷ w ∷ []) c e =
    let (em, eh, ed, emo, (ws, ew, folded)) = with_five-some _ _ _ _ _ c e in
    record {
      minutes = parse_cron_field-InRange int 0 59 m c.minute em;
      hours = parse_cron_field-InRange int 0 23 h c.hour eh;
      days = parse_cron_field-InRange int 1 31 d c.day ed;
      months = parse_cron_field-InRange int 1 12 mo c.month emo;
      weekdays = rw folded (fold_sunday-InRange ws (parse_cron_field-InRange int 0 7 w ws ew));
    }
parse_cron-IsCalendar int _ c e = cc
