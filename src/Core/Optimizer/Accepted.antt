-- ===== src/Core/Optimizer/Accepted.antt =====
-- When no rule of src/smoking_data/core/optimizer.py raises, nor `_validate_rewrite` for its rewrite.
use smoking_data.Prelude.{
  ℕ, max, ◌≡◌, ◌≢◌, refl, subst, Bool, true, false, String, List, [], ◌∷◌, All, All-append, All-map,
  arith, inl, inr,
}
use smoking_data.Prelude.Result.{Result, ok, err}
use smoking_data.Core.Optimizer.{
  Operation, Rewrite, rewritten, raises_key_error, Config, merge_filters, merge_calcs, drop_cast,
  filter_over_projection, filter_over_calc, filter_over_cast, rewrite_pair, remove_identity,
}
use smoking_data.Core.Optimizer.Loop.{
  RewriteRule, RewriteError, Search, rules, start, OptimizationResult, optimize_logical_plan,
  as_result, iterate,
}
use smoking_data.Core.Optimizer.Shape.{
  rewrite_pair-cases, rewrite_pair-raises, remove_identity-cases, remove_identity-ne-raises,
}
use smoking_data.Core.Optimizer.Kept.{Alike, Alike-validate_rewrite}
use smoking_data.Core.Optimizer.Alike.{Alike-append, Alike-cons, Alike-drop}
use smoking_data.Core.Optimizer.Regular.{
  Regular, SafeRule, merge_filters-Safe, if-Safe, RegularRule, Regular-projection,
  merge_filters-Regular, merge_calcs-Regular, drop_cast-Regular, filter_over_projection-Regular,
  filter_over_calc-Regular, filter_over_cast-Regular,
}
use smoking_data.Core.Optimizer.Rounds.{RuleKeeps, NotesKept, ResultHolds, iterate-holds}

module _ (cast_columns : Config → List String) where
  unfoldable RegularRewrite : (List Operation → Rewrite) → Type 0
  RegularRewrite rewrite =
      (ops out : List Operation)
      → All (Regular cast_columns) ops
      → rewrite ops ≡ rewritten out
      → Alike ops out × All (Regular cast_columns) out

  unfoldable SafeRewrite : (List Operation → Rewrite) → Type 0
  SafeRewrite rewrite =
      (ops : List Operation) → All (Regular cast_columns) ops → rewrite ops ≢ raises_key_error

  rewrite_pair-Safe :
      (rule : Operation → Operation → Rewrite)
      → SafeRule cast_columns rule
      → SafeRewrite (rewrite_pair rule)
  unfolding SafeRewrite rewrite_pair SafeRule
  rewrite_pair-Safe rule safe [] s h = cc
  rewrite_pair-Safe rule safe (x ∷ []) s h = cc
  rewrite_pair-Safe rule safe (x ∷ y ∷ ops) (sx, (sy, ss)) h =
      elim (rewrite_pair-raises rule x y ops h) [
        | inl here ↦ safe x y sx sy here
        | inr later ↦ rewrite_pair-Safe rule safe (y ∷ ops) (sy, ss) later
      ]

  rewrite_pair-Regular :
      (rule : Operation → Operation → Rewrite)
      → RegularRule cast_columns rule
      → RegularRewrite (rewrite_pair rule)
  unfolding RegularRewrite rewrite_pair RegularRule
  rewrite_pair-Regular rule regular [] out s h = cc
  rewrite_pair-Regular rule regular (x ∷ []) out s h = cc
  rewrite_pair-Regular rule regular (x ∷ y ∷ ops) out (sx, (sy, ss)) h =
      elim (rewrite_pair-cases rule x y ops out h) [
        | inl (replaced, e, e') ↦
            let (alike, sr) = regular x y replaced sx sy e in
            subst (λ o. Alike (x ∷ y ∷ ops) o × All (Regular cast_columns) o) e'
              (
                Alike-append (x ∷ y ∷ []) replaced ops alike,
                All-append (Regular cast_columns) replaced ops sr ss,
              )
        | inr (rest, e, e') ↦
            let (alike, sr) = rewrite_pair-Regular rule regular (y ∷ ops) rest (sy, ss) e in
            subst (λ o. Alike (x ∷ y ∷ ops) o × All (Regular cast_columns) o) e'
              (Alike-cons x (y ∷ ops) rest alike, (sx, sr))
      ]

  remove_identity-Regular : RegularRewrite remove_identity
  unfolding RegularRewrite remove_identity
  remove_identity-Regular [] out s h = cc
  remove_identity-Regular (op ∷ ops) out (so, ss) h = elim (remove_identity-cases op ops out h) [
    | inl (e, e') ↦
        let (free, none_out) = Regular-projection cast_columns op (ground arith) so in
        subst (λ o. Alike (op ∷ ops) o × All (Regular cast_columns) o) e'
          (Alike-drop op ops free (none_out e), ss)
    | inr (rest, e, e') ↦
        let (alike, sr) = remove_identity-Regular ops rest ss e in
        subst (λ o. Alike (op ∷ ops) o × All (Regular cast_columns) o) e'
          (Alike-cons op ops rest alike, (so, sr))
  ]

  merge_calcs-Safe : SafeRule cast_columns merge_calcs
  unfolding SafeRule merge_calcs
  merge_calcs-Safe l r hl hr = if-Safe cast_columns _ _

  drop_cast-Safe : SafeRule cast_columns drop_cast
  unfolding SafeRule drop_cast
  drop_cast-Safe l r hl hr = if-Safe cast_columns _ _

  filter_over_projection-Safe : SafeRule cast_columns filter_over_projection
  unfolding SafeRule filter_over_projection
  filter_over_projection-Safe l r hl hr = if-Safe cast_columns _ _

  filter_over_calc-Safe : SafeRule cast_columns filter_over_calc
  unfolding SafeRule filter_over_calc
  filter_over_calc-Safe l r hl hr = if-Safe cast_columns _ _

  filter_over_cast-Safe : SafeRule cast_columns filter_over_cast
  unfolding SafeRule filter_over_cast
  filter_over_cast-Safe l r hl hr = if-Safe cast_columns _ _

  rules-Regular :
      All (λ (rule : RewriteRule). RegularRewrite rule.rewrite × SafeRewrite rule.rewrite) rules
  unfolding rules SafeRewrite
  rules-Regular = (
    (remove_identity-Regular, λ ops s. remove_identity-ne-raises ops),
    (
      (
        rewrite_pair-Regular merge_filters (merge_filters-Regular cast_columns),
        rewrite_pair-Safe merge_filters (merge_filters-Safe cast_columns),
      ),
      (
        (
          rewrite_pair-Regular merge_calcs (merge_calcs-Regular cast_columns),
          rewrite_pair-Safe merge_calcs (merge_calcs-Safe),
        ),
        (
          (
            rewrite_pair-Regular drop_cast (drop_cast-Regular cast_columns),
            rewrite_pair-Safe drop_cast (drop_cast-Safe),
          ),
          (
            (
              rewrite_pair-Regular filter_over_projection
                  (filter_over_projection-Regular cast_columns),
              rewrite_pair-Safe filter_over_projection (filter_over_projection-Safe),
            ),
            (
              (
                rewrite_pair-Regular filter_over_calc (filter_over_calc-Regular cast_columns),
                rewrite_pair-Safe filter_over_calc (filter_over_calc-Safe),
              ),
              (
                (
                  rewrite_pair-Regular filter_over_cast (filter_over_cast-Regular cast_columns),
                  rewrite_pair-Safe filter_over_cast (filter_over_cast-Safe),
                ),
                tt,
              ),
            ),
          ),
        ),
      ),
    ),
  )

  AllRegular : Search → Type 0
  AllRegular s = All (Regular cast_columns) s.current

  module _ (signature : Operation → String) (max_plans : ℕ) where
    rule-keeps :
        (rule : RewriteRule)
        → RegularRewrite rule.rewrite × SafeRewrite rule.rewrite
        → RuleKeeps signature max_plans AllRegular ⊥ rule
    unfolding RuleKeeps RegularRewrite SafeRewrite AllRegular
    rule-keeps rule (regular, safe) = (
      λ s candidate p e.
          let (alike, rc) = regular s.current candidate p e in
          (
            λ room valid. rc,
            λ e' h. let passed = Alike-validate_rewrite s.current candidate alike in cc,
          ),
      λ s p e. safe s.current p e,
    )

    searched :
        (n : ℕ) (plan : List Operation)
        → All (Regular cast_columns) plan
        → ResultHolds signature max_plans AllRegular ⊥
            (iterate signature max_plans n (start signature max_plans plan))
    unfolding AllRegular NotesKept
    searched n plan regular =
        iterate-holds signature max_plans AllRegular ⊥ (λ s d p. p) n
          (start signature max_plans plan)
          (All-map (RuleKeeps signature max_plans AllRegular ⊥) rules rule-keeps rules-Regular)
          regular

    no_error :
        (o : Result RewriteError Search) (plan : List Operation)
        → ResultHolds signature max_plans AllRegular ⊥ o
        → (r : OptimizationResult) × (elim o [
          | err e ↦ err e
          | ok s ↦ ok (as_result signature max_plans plan s)
        ]
            ≡ ok r)
    unfolding ResultHolds
    no_error (ok s) plan h = (as_result signature max_plans plan s, refl)
    no_error (err e) plan h = absurd h

    -- A plan is optimized without an error where no filter, projection, calculation or cast is a barrier,
    -- every filter has an `sql`, filters and identity projections declare no output column, and the
    -- columns of a cast are a function of its config.
    pub optimize_logical_plan_returns :
        (enabled : Bool) (max_iterations : ℕ) (plan : List Operation)
        → All (Regular cast_columns) plan
        → (r : OptimizationResult) × (optimize_logical_plan signature max_plans enabled
              max_iterations plan
            ≡ ok r)
    unfolding optimize_logical_plan
    optimize_logical_plan_returns false max_iterations plan h = (_, refl)
    optimize_logical_plan_returns true max_iterations plan h =
        let n = max 1 max_iterations in
        no_error (iterate signature max_plans n (start signature max_plans plan)) plan
          (searched n plan h)
