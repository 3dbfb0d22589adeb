-- ===== src/Runtime/Scheduler/Cron.antt =====
-- `_parse_cron`, `_parse_cron_field` and `_cron_matches` of src/smoking_data/runtime/scheduler.py. A
-- text is the list of its code points, and Python's `int` is the parameter `int`, which gives an
-- integer or raises.
use smoking_data.Prelude.{
  ℕ, zero, suc, ◌+◌, ◌-◌, ◌/◌, ◌%◌, Bool, true, false, not, ◌&&◌, ◌||◌, Option, none, some, List,
  [], ◌∷◌, ◌++◌, map, ltb, ◌==◌, if◌then◌else◌, any,
}

abbrev pub Text : Type 0
Text = List ℕ

-- What `int` returns: a number that is not negative, or a negative one.
pub data Integer : Type 0 where
  natural : ℕ → Integer
  negative : Integer

abbrev pub text_eq : Text → Text → Bool
text_eq [] [] = true
text_eq (x ∷ xs) (y ∷ ys) = (x == y) && text_eq xs ys
text_eq _ _ = false

abbrev pub star : Text
star = b'*' ∷ []

abbrev pub has_code : ℕ → Text → Bool
has_code c t = any (λ x. x == c) t

-- `text.split(c, 1)` where `c` occurs, and `text.partition(c)`: what stands before and after the
-- first `c`.
unfoldable pub before_code : ℕ → Text → Text
before_code c [] = []
before_code c (x ∷ xs) = let rest = before_code c xs in if x == c then [] else x ∷ rest

unfoldable pub after_code : ℕ → Text → Text
after_code c [] = []
after_code c (x ∷ xs) = let rest = after_code c xs in if x == c then xs else rest

-- `text.split(c)`: the pieces, at least one; `piece` is what has been read of the current one.
unfoldable pub split_from : ℕ → Text → Text → List Text
split_from c piece [] = piece ∷ []
split_from c piece (x ∷ xs) = elim (x == c) [
  | true ↦ piece ∷ split_from c [] xs
  | false ↦ split_from c (piece ++ x ∷ []) xs
]

-- The `n` values of `range(start, ..., step)`.
unfoldable pub steps : ℕ → ℕ → ℕ → List ℕ
steps zero start step = []
steps (suc n) start step = start ∷ steps n (start + step) step

-- `range(start, end + 1, step)` for start ≤ end and 1 ≤ step.
unfoldable pub range : ℕ → ℕ → ℕ → List ℕ
range start end step = steps (suc ((end - start) / step)) start step

abbrev pub has_value : ℕ → List ℕ → Bool
has_value v xs = any (λ x. x == v) xs

module _ (int : Text → Option Integer) where
  -- `int(step_value) if separator else 1`, where a step below 1 raises.
  unfoldable pub parse_step : Text → Option ℕ
  parse_step item =
      if has_code b'/' item
      then (elim (int (after_code b'/' item)) [
        | none ↦ none
        | some negative ↦ none
        | some (natural n) ↦ if ltb n 1 then none else some n
      ])
      else some 1

  abbrev pub both : Option Integer → Option Integer → Option (ℕ × ℕ)
  both (some (natural a)) (some (natural b)) = some (a, b)
  both _ _ = none

  -- The start and the end; a negative one lies outside every range, and raises like `int` does.
  unfoldable pub parse_bounds : ℕ → ℕ → Text → Option (ℕ × ℕ)
  parse_bounds minimum maximum base =
      if text_eq base star
      then some (minimum, maximum)
      else if has_code b'-' base
      then both (int (before_code b'-' base)) (int (after_code b'-' base))
      else both (int base) (int base)

  -- The values of one item of the list; `none` is a `ValueError`.
  unfoldable pub parse_item : ℕ → ℕ → Text → Option (List ℕ)
  unfolding parse_step parse_bounds
  parse_item minimum maximum item = elim (parse_step item) [
    | none ↦ none
    | some step ↦ elim (parse_bounds minimum maximum (before_code b'/' item)) [
      | none ↦ none
      | some (start, end) ↦
          if ltb start minimum || ltb maximum end || ltb end start
          then none
          else some (range start end step)
    ]
  ]

  unfoldable pub parse_items : ℕ → ℕ → List Text → Option (List ℕ)
  parse_items minimum maximum [] = some []
  parse_items minimum maximum (item ∷ items) = elim (parse_item minimum maximum item) [
    | none ↦ none
    | some values ↦ elim (parse_items minimum maximum items) [
      | none ↦ none
      | some rest ↦ some (values ++ rest)
    ]
  ]

  unfoldable pub parse_cron_field : ℕ → ℕ → Text → Option (List ℕ)
  unfolding parse_item parse_items split_from before_code after_code
  parse_cron_field minimum maximum value = parse_items minimum maximum (split_from b',' [] value)

pub record Cron : Type 0 where
  pub minute : List ℕ
  pub hour : List ℕ
  pub day : List ℕ
  pub month : List ℕ
  pub weekday : List ℕ

-- `{0 if value == 7 else value for value in parsed[4]}`
abbrev pub fold_sunday : List ℕ → List ℕ
fold_sunday values = map (λ v. if v == 7 then 0 else v) values

abbrev pub with_five :
    Option (List ℕ)
    → Option (List ℕ)
    → Option (List ℕ)
    → Option (List ℕ)
    → Option (List ℕ)
    → Option Cron
with_five (some a) (some b) (some c) (some d) (some e) =
    some (record { minute = a; hour = b; day = c; month = d; weekday = fold_sunday e })
with_five _ _ _ _ _ = none

-- On the fields `expression.split()`.
unfoldable pub parse_cron : (Text → Option Integer) → List Text → Option Cron
parse_cron int (a ∷ b ∷ c ∷ d ∷ e ∷ []) =
    with_five (parse_cron_field int 0 59 a) (parse_cron_field int 0 23 b)
      (parse_cron_field int 1 31 c) (parse_cron_field int 1 12 d) (parse_cron_field int 0 7 e)
parse_cron int _ = none

-- A local time; `weekday` counts from Monday, as Python does.
pub record LocalTime : Type 0 where
  pub minute : ℕ
  pub hour : ℕ
  pub day : ℕ
  pub month : ℕ
  pub weekday : ℕ

abbrev pub field_restricted : ℕ → List Text → Bool
field_restricted i [] = false
field_restricted zero (f ∷ fields) = not (text_eq f star)
field_restricted (suc i) (f ∷ fields) = field_restricted i fields

unfoldable pub matches_parsed : List Text → Cron → LocalTime → Bool
matches_parsed fields c t =
    let day_match = has_value t.day c.day in
    let weekday_match = has_value ((t.weekday + 1) % 7) c.weekday in
    let calendar_match =
      if field_restricted 2 fields && field_restricted 4 fields
      then day_match || weekday_match
      else day_match && weekday_match in
    has_value t.minute c.minute
    && has_value t.hour c.hour
    && has_value t.month c.month
    && calendar_match

-- `none` is the `ValidationError` of an invalid expression.
unfoldable pub cron_matches : (Text → Option Integer) → List Text → LocalTime → Option Bool
unfolding matches_parsed
cron_matches int fields t = elim (parse_cron int fields) [
  | none ↦ none
  | some c ↦ some (matches_parsed fields c t)
]
