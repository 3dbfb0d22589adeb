-- ===== src/Core/Optimizer/Rounds.antt =====
-- Invariants of the loop of `optimize_logical_plan` of src/smoking_data/core/optimizer.py.
use smoking_data.Prelude.{
  ℕ, zero, suc, max, ◌≡◌, refl, sym, subst, ◌<◌, String, Bool, true, false, Option, none, some,
  List, [], ◌∷◌, All, any, leb, leb-false→lt, length,
}
use smoking_data.Prelude.Result.{Result, ok, err}
use smoking_data.Core.Optimizer.{
  Operation, Rewrite, unchanged, rewritten, raises_key_error, names_eq,
}
use smoking_data.Core.Optimizer.Loop.{
  RewriteDecision, RewriteRule, RewriteError, Search, Round, changed, settled, limited, rejected,
  rules, validate_rewrite, signatures, validated, try_rules, iterate, start, noted, accepted,
  decision, OptimizationResult, optimize_logical_plan, as_result,
}

module _ (signature : Operation → String) (max_plans : ℕ) (P : Search → Type 0)
    (Rejected : Type 0) where
  -- An accepted candidate of a rule keeps the invariant, and a rejected one or a rule that raises is as
  -- `Rejected` says.
  unfoldable pub RuleKeeps : RewriteRule → Type 0
  RuleKeeps rule =
      ((s : Search) (candidate : List Operation)
        → P s
        → rule.rewrite s.current ≡ rewritten candidate
        → (length s.seen < max_plans
            → validate_rewrite s.current candidate ≡ none
            → P (accepted signature max_plans s rule candidate))
          × ((e : RewriteError) → validate_rewrite s.current candidate ≡ some e → Rejected))
      × ((s : Search) → P s → rule.rewrite s.current ≡ raises_key_error → Rejected)

  unfoldable pub NotesKept : Type 0
  NotesKept = (s : Search) (d : RewriteDecision) → P s → P (noted signature max_plans s d)

  RoundHolds : Round → Type 0
  RoundHolds (changed s) = P s
  RoundHolds (settled s) = P s
  RoundHolds (limited s) = P s
  RoundHolds (rejected e) = Rejected

  unfoldable pub ResultHolds : Result RewriteError Search → Type 0
  ResultHolds (ok s) = P s
  ResultHolds (err e) = Rejected

  validated-holds :
      (o : Option RewriteError) (s : Search) (rule : RewriteRule) (candidate : List Operation)
      → (o ≡ none → P (accepted signature max_plans s rule candidate))
      → ((e : RewriteError) → o ≡ some e → Rejected)
      → RoundHolds (validated signature max_plans o s rule candidate)
  unfolding RoundHolds
  validated-holds none s rule candidate h r = h refl
  validated-holds (some e) s rule candidate h r = r e refl

  limit-holds :
      (full : Bool) (n s : Search) (o : Option RewriteError) (rule : RewriteRule)
      (candidate : List Operation)
      → P n
      → (full ≡ false → o ≡ none → P (accepted signature max_plans s rule candidate))
      → ((e : RewriteError) → o ≡ some e → Rejected)
      → RoundHolds (elim full [
        | true ↦ limited n
        | false ↦ validated signature max_plans o s rule candidate
      ])
  unfolding RoundHolds
  limit-holds true n s o rule candidate pn h r = pn
  limit-holds false n s o rule candidate pn h r = validated-holds o s rule candidate (h refl) r

  seen-holds :
      (seen : Bool) (a b : Round)
      → RoundHolds a
      → RoundHolds b
      → RoundHolds (elim seen [ true ↦ a | false ↦ b ])
  seen-holds true a b ha hb = ha
  seen-holds false a b ha hb = hb

  module _ (notes : NotesKept) where
    rule-holds :
        (o : Rewrite) (rule : RewriteRule) (rest : List RewriteRule) (s : Search)
        → RuleKeeps rule
        → P s
        → o ≡ rule.rewrite s.current
        → ((s' : Search) → P s' → RoundHolds (try_rules signature max_plans rest s'))
        → RoundHolds (elim o [
          | unchanged ↦ try_rules signature max_plans rest s
          | raises_key_error ↦ rejected RewriteError.key_error
          | rewritten candidate ↦
              elim (any (names_eq (signatures signature max_plans candidate)) s.seen) [
                | true ↦ try_rules signature max_plans rest (
                    noted signature max_plans s
                      (decision signature max_plans rule false "memoized_plan" s.current candidate))
                | false ↦ elim (leb max_plans (length s.seen)) [
                  | true ↦ limited (
                      noted signature max_plans s (
                        decision signature max_plans rule false "plan_count_limit" s.current
                          s.current))
                  | false ↦
                      validated signature max_plans
                        (validate_rewrite s.current candidate)
                        s
                        rule
                        candidate
                ]
              ]
        ])
    unfolding RuleKeeps NotesKept RoundHolds
    rule-holds unchanged rule rest s keeping p e go = go s p
    rule-holds raises_key_error rule rest s keeping p e go = keeping.1 s p (sym e)
    rule-holds (rewritten candidate) rule rest s keeping p e go =
        let seen = decision signature max_plans rule false "memoized_plan" s.current candidate in
        let full = decision signature max_plans rule false "plan_count_limit" s.current s.current in
        seen-holds (any (names_eq (signatures signature max_plans candidate)) s.seen)
          (try_rules signature max_plans rest (noted signature max_plans s seen))
          (elim (leb max_plans (length s.seen)) [
            | true ↦ limited (noted signature max_plans s full)
            | false ↦
                validated signature max_plans (validate_rewrite s.current candidate) s rule
                  candidate
          ])
          (go (noted signature max_plans s seen) (notes s seen p))
          (limit-holds (leb max_plans (length s.seen)) (noted signature max_plans s full) s
            (validate_rewrite s.current candidate) rule candidate (notes s full p)
            (λ room valid.
              (keeping.0 s candidate p (sym e)).0 (leb-false→lt max_plans (length s.seen) room)
                valid)
            (keeping.0 s candidate p (sym e)).1)

    try_rules-holds :
        (rs : List RewriteRule) (s : Search)
        → All RuleKeeps rs
        → P s
        → RoundHolds (try_rules signature max_plans rs s)
    unfolding try_rules RoundHolds
    try_rules-holds [] s keeping p = p
    try_rules-holds (rule ∷ rest) s (here, later) p =
        rule-holds (rule.rewrite s.current) rule rest s here p refl
          λ s' p'. try_rules-holds rest s' later p'

    next_round :
        (round : Round) (n : ℕ)
        → RoundHolds round
        → ((new : Search) → P new → ResultHolds (iterate signature max_plans n new))
        → ResultHolds (elim round [
          | changed new ↦ iterate signature max_plans n new
          | settled new ↦ ok new
          | limited new ↦ ok new
          | rejected e ↦ err e
        ])
    unfolding RoundHolds ResultHolds
    next_round (changed new) n h go = go new h
    next_round (settled new) n h go = h
    next_round (limited new) n h go = h
    next_round (rejected e) n h go = h

    -- What every accepted candidate keeps holds where the loop ends.
    pub iterate-holds :
        (n : ℕ) (s : Search)
        → All RuleKeeps rules
        → P s
        → ResultHolds (iterate signature max_plans n s)
    unfolding iterate ResultHolds
    iterate-holds zero s keeping p = p
    iterate-holds (suc n) s keeping p =
        next_round (try_rules signature max_plans rules s) n (try_rules-holds rules s keeping p)
          λ new p'. iterate-holds n new keeping p'

  finished :
      (o : Result RewriteError Search) (plan : List Operation) (Q : OptimizationResult → Type 0)
      (r : OptimizationResult)
      → ResultHolds o
      → ((s : Search) → P s → Q (as_result signature max_plans plan s))
      → elim o [ err e ↦ err e | ok s ↦ ok (as_result signature max_plans plan s) ] ≡ ok r
      → Q r
  unfolding ResultHolds
  finished (ok s) plan Q r p q h =
      let e : as_result signature max_plans plan s ≡ r = cc in subst Q e (q s p)
  finished (err e) plan Q r p q h = cc

  -- What the loop's invariant makes of the result.
  pub optimize-holds :
      (max_iterations : ℕ) (plan : List Operation) (Q : OptimizationResult → Type 0)
      (r : OptimizationResult)
      → NotesKept
      → All RuleKeeps rules
      → P (start signature max_plans plan)
      → ((s : Search) → P s → Q (as_result signature max_plans plan s))
      → optimize_logical_plan signature max_plans true max_iterations plan ≡ ok r
      → Q r
  unfolding optimize_logical_plan
  optimize-holds max_iterations plan Q r notes keeping p q h =
      let n = max 1 max_iterations in
      let s = start signature max_plans plan in
      finished (iterate signature max_plans n s) plan Q r (iterate-holds notes n s keeping p) q h
