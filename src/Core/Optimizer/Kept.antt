-- ===== src/Core/Optimizer/Kept.antt =====
-- What `_validate_rewrite` of src/smoking_data/core/optimizer.py makes every plan of the search keep.
use smoking_data.Prelude.{
  ℕ, max, ◌≤◌, ◌≡◌, refl, sym, subst, ◌∙◌, Bool, true, false, not, ◌&&◌, String, none, some, List,
  [], ◌∷◌, All, All-append, All-of, length, length-append, arith, if◌then◌else◌, eq_iff,
}
use smoking_data.Prelude.Names.{contains}
use smoking_data.Prelude.Result.{ok}
use smoking_data.Core.Optimizer.{Operation, names_eq, subset}
use smoking_data.Core.Optimizer.Loop.{
  RewriteRule, RewriteError, Search, rules, OptimizationResult, optimize_logical_plan,
  validate_rewrite, side_effects, barriers, produced,
}
use smoking_data.Core.Optimizer.Sound.{subset-contains, names_eq-eq}
use smoking_data.Core.Optimizer.Rounds.{RuleKeeps, NotesKept, optimize-holds}

-- The same operations with side effects and barriers, in the same order, and the same produced columns.
unfoldable pub Alike : List Operation → List Operation → Type 0
Alike a b =
    (side_effects a ≡ side_effects b)
    × (barriers a ≡ barriers b)
    × ((c : String) → contains c (produced a) ≡ contains c (produced b))

pub Alike-refl : (a : List Operation) → Alike a a
unfolding Alike
Alike-refl a = (refl, refl, λ c. refl)

pub Alike-trans : (a b c : List Operation) → Alike a b → Alike b c → Alike a c
unfolding Alike
Alike-trans a b c h k = (h.0 ∙ k.0, h.1 ∙ k.1, λ x. h.2 x ∙ k.2 x)

names_eq_refl : (xs : List String) → names_eq xs xs ≡ true
names_eq_refl [] = refl
names_eq_refl (x ∷ xs) = ground (arith, names_eq_refl xs, eq_iff x x)

subset_of :
    (xs ys : List String)
    → ((c : String) → contains c xs ≡ true → contains c ys ≡ true)
    → subset xs ys ≡ true
subset_of [] ys h = refl
subset_of (x ∷ xs) ys h =
    let rest = subset_of xs ys λ c k. h c (ground arith) in ground (arith, h x, eq_iff x x)

no_error :
    {E : Type 0} (a b c : Bool) (x y z : E)
    → (if not a then some x else if not b then some y else if not c then some z else none) ≡ none
    → (a ≡ true) × (b ≡ true) × (c ≡ true)
no_error true true true x y z h = (refl, refl, refl)
no_error true true false x y z h = cc
no_error true false c x y z h = cc
no_error false b c x y z h = cc

same_names :
    (xs ys : List String) (c : String)
    → subset xs ys ≡ true
    → subset ys xs ≡ true
    → contains c xs ≡ contains c ys
same_names xs ys c h k = ground (arith, subset-contains xs ys c, subset-contains ys xs c)

pub validate_rewrite-Alike :
    (before after : List Operation) → validate_rewrite before after ≡ none → Alike before after
unfolding validate_rewrite Alike
validate_rewrite-Alike before after h =
    let (a, b, c) =
      no_error (names_eq (side_effects before) (side_effects after))
        (subset (produced before) (produced after) && subset (produced after) (produced before))
        (names_eq (barriers before) (barriers after)) RewriteError.side_effects_changed
        RewriteError.produced_columns_changed RewriteError.barriers_changed h in
    (
      names_eq-eq (side_effects before) (side_effects after) a,
      names_eq-eq (barriers before) (barriers after) c,
      λ x. same_names (produced before) (produced after) x (ground arith) (ground arith),
    )

all_true :
    {E : Type 0} (a b c : Bool) (x y z : E)
    → a ≡ true
    → b ≡ true
    → c ≡ true
    → (if not a then some x else if not b then some y else if not c then some z else none) ≡ none
all_true true true true x y z ha hb hc = refl
all_true false b c x y z ha hb hc = cc
all_true true false c x y z ha hb hc = cc
all_true true true false x y z ha hb hc = cc

pub Alike-validate_rewrite :
    (before after : List Operation) → Alike before after → validate_rewrite before after ≡ none
unfolding validate_rewrite Alike
Alike-validate_rewrite before after (s, b, p) =
    let there = subset_of (produced before) (produced after) λ c k. sym (p c) ∙ k in
    let back = subset_of (produced after) (produced before) λ c k. p c ∙ k in
    all_true (names_eq (side_effects before) (side_effects after))
      (subset (produced before) (produced after) && subset (produced after) (produced before))
      (names_eq (barriers before) (barriers after)) RewriteError.side_effects_changed
      RewriteError.produced_columns_changed RewriteError.barriers_changed
      (subst (λ xs. names_eq (side_effects before) xs ≡ true) s
        (names_eq_refl (side_effects before)))
      (ground arith)
      (subst (λ xs. names_eq (barriers before) xs ≡ true) b (names_eq_refl (barriers before)))

module _ (signature : Operation → String) (max_plans : ℕ) (plan : List Operation) where
  Bounded : Search → Type 0
  Bounded s =
      Alike plan s.current
      × All (Alike plan) s.candidates
      × (length s.candidates ≡ length s.seen)
      × (length s.seen ≤ max 1 max_plans)

  rule-keeps : (rule : RewriteRule) → RuleKeeps signature max_plans Bounded Unit rule
  unfolding RuleKeeps Bounded
  rule-keeps rule = (
    λ s candidate (alike, all_alike, counted, bounded) e. (
      λ room valid.
          let alike' =
            Alike-trans plan s.current candidate alike
              (validate_rewrite-Alike s.current candidate valid) in
          (
            alike',
            All-append (Alike plan) s.candidates (candidate ∷ []) all_alike (alike', tt),
            omega (arith, length-append s.candidates (candidate ∷ [])),
            omega arith,
          ),
      λ e' h. tt,
    ),
    λ s p e. tt,
  )

  unfoldable pub Kept : OptimizationResult → Type 0
  Kept r =
      Alike plan r.optimized_plan
      × All (Alike plan) r.candidate_plans
      × (length r.candidate_plans ≡ r.explored_plans)
      × (r.explored_plans ≤ max 1 max_plans)

  -- The result of the optimizer: the optimized plan and every candidate have the side effects and the
  -- barriers of the plan, in its order, and produce its columns; and the explored plans, which are
  -- counted right, are at most `max_plans`, or one where that is 0.
  pub optimize_logical_plan-Kept :
      (enabled : Bool) (max_iterations : ℕ) (r : OptimizationResult)
      → optimize_logical_plan signature max_plans enabled max_iterations plan ≡ ok r
      → Kept r
  unfolding optimize_logical_plan Kept NotesKept Bounded
  optimize_logical_plan-Kept false max_iterations r h =
      let e : record {
        canonical_plan = plan;
        optimized_plan = plan;
        candidate_plans = plan ∷ [];
        trace = [];
        explored_plans = 1;
      }
          ≡ r =
        cc in
      subst Kept e (Alike-refl plan, (Alike-refl plan, tt), refl, omega arith)
  optimize_logical_plan-Kept true max_iterations r h =
      optimize-holds signature max_plans Bounded Unit max_iterations plan Kept r (λ s d p. p)
        (All-of (RuleKeeps signature max_plans Bounded Unit) rules rule-keeps)
        (Alike-refl plan, (Alike-refl plan, tt), refl, omega arith) (λ s p. p) h
