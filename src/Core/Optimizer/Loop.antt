-- ===== src/Core/Optimizer/Loop.antt =====
-- `optimize_logical_plan` of src/smoking_data/core/optimizer.py. A plan is its list of operations; the text
-- `repr` of an operation is the parameter `signature`.
use smoking_data.Prelude.{
  ℕ, zero, suc, max, String, Bool, true, false, not, ◌&&◌, Option, none, some, List, [], ◌∷◌, ◌++◌,
  map, leb, if◌then◌else◌, length, keep, any,
}
use smoking_data.Prelude.Result.{Result, ok, err}
use smoking_data.Core.Optimizer.{
  Operation, Rewrite, unchanged, rewritten, raises_key_error, is_fixed_barrier, names_eq, subset,
  merge_filters, merge_calcs, drop_cast, filter_over_projection, filter_over_calc, filter_over_cast,
  rewrite_pair, remove_identity,
}

pub record RewriteDecision : Type 0 where
  pub rule_id : String
  pub applied : Bool
  pub reason : String
  pub before : List String
  pub after : List String

pub record RewriteRule : Type 0 where
  pub rule_id : String
  pub reason : String
  pub rewrite : List Operation → Rewrite

unfoldable pub rules : List RewriteRule
unfolding remove_identity rewrite_pair merge_filters merge_calcs drop_cast filter_over_projection
    filter_over_calc filter_over_cast
rules =
    record {
      rule_id = "tier_a.remove_identity_projection";
      reason = "empty projection is an identity";
      rewrite = remove_identity;
    }
    ∷ record {
      rule_id = "tier_a.merge_adjacent_filters";
      reason = "deterministic total filters share a schema";
      rewrite = rewrite_pair merge_filters;
    }
    ∷ record {
      rule_id = "tier_a.merge_independent_add_calc";
      reason = "independent row-local expressions";
      rewrite = rewrite_pair merge_calcs;
    }
    ∷ record {
      rule_id = "tier_a.remove_duplicate_cast";
      reason = "identical deterministic cast";
      rewrite = rewrite_pair drop_cast;
    }
    ∷ record {
      rule_id = "tier_b.filter_before_projection";
      reason = "predicate columns survive projection";
      rewrite = rewrite_pair filter_over_projection;
    }
    ∷ record {
      rule_id = "tier_b.filter_before_independent_add_calc";
      reason = "predicate does not depend on calculated aliases";
      rewrite = rewrite_pair filter_over_calc;
    }
    ∷ record {
      rule_id = "tier_b.filter_before_independent_cast";
      reason = "predicate does not read casted columns";
      rewrite = rewrite_pair filter_over_cast;
    }
    ∷ []

-- What ends the optimizer: a rewrite that is refused, or a rule that raises.
pub data RewriteError : Type 0 where
  side_effects_changed produced_columns_changed barriers_changed key_error : RewriteError

abbrev pub ids : List Operation → List String
ids ops = map (λ (op : Operation). op.operation_id) ops

abbrev pub side_effects : List Operation → List String
side_effects ops = ids (keep (λ (op : Operation). op.properties.side_effect) ops)

abbrev pub produced : List Operation → List String
produced [] = []
produced (op ∷ ops) = op.output_columns ++ produced ops

abbrev pub barriers : List Operation → List String
barriers ops = ids (keep is_fixed_barrier ops)

-- `_validate_rewrite`; `none` means that it returns.
unfoldable pub validate_rewrite : List Operation → List Operation → Option RewriteError
unfolding is_fixed_barrier
validate_rewrite before after =
    if not (names_eq (side_effects before) (side_effects after))
    then some side_effects_changed
    else if not
        (subset (produced before) (produced after) && subset (produced after) (produced before))
    then some produced_columns_changed
    else if not (names_eq (barriers before) (barriers after))
    then some barriers_changed
    else none

-- The local variables of the loop.
pub record Search : Type 0 where
  pub current : List Operation
  pub seen : List (List String)
  pub candidates : List (List Operation)
  pub trace : List RewriteDecision

-- How a round of the loop over the rules ends.
pub data Round : Type 0 where
  changed settled limited : Search → Round
  rejected : RewriteError → Round

pub record OptimizationResult : Type 0 where
  pub canonical_plan : List Operation
  pub optimized_plan : List Operation
  pub candidate_plans : List (List Operation)
  pub trace : List RewriteDecision
  pub explored_plans : ℕ

module _ (signature : Operation → String) (max_plans : ℕ) where
  abbrev pub signatures : List Operation → List String
  signatures ops = map signature ops

  abbrev pub decision :
      RewriteRule → Bool → String → List Operation → List Operation → RewriteDecision
  decision rule applied reason before after = record {
    rule_id = rule.rule_id;
    applied = applied;
    reason = reason;
    before = ids before;
    after = ids after;
  }

  abbrev pub noted : Search → RewriteDecision → Search
  noted s d = record s { trace = s.trace ++ d ∷ [] }

  abbrev pub accepted : Search → RewriteRule → List Operation → Search
  accepted s rule candidate = record {
    current = candidate;
    seen = signatures candidate ∷ s.seen;
    candidates = s.candidates ++ candidate ∷ [];
    trace = s.trace ++ decision rule true rule.reason s.current candidate ∷ [];
  }

  abbrev pub validated : Option RewriteError → Search → RewriteRule → List Operation → Round
  validated none s rule candidate = changed (accepted s rule candidate)
  validated (some e) s rule candidate = rejected e

  -- The body of the loop over the rules, from a rule on.
  unfoldable pub try_rules : List RewriteRule → Search → Round
  unfolding validate_rewrite
  try_rules [] s = settled s
  try_rules (rule ∷ rest) s = elim (rule.rewrite s.current) [
    | unchanged ↦ try_rules rest s
    | raises_key_error ↦ rejected RewriteError.key_error
    | rewritten candidate ↦ elim (any (names_eq (signatures candidate)) s.seen) [
      | true ↦ try_rules rest (noted s (decision rule false "memoized_plan" s.current candidate))
      | false ↦ elim (leb max_plans (length s.seen)) [
        | true ↦ limited (noted s (decision rule false "plan_count_limit" s.current s.current))
        | false ↦ validated (validate_rewrite s.current candidate) s rule candidate
      ]
    ]
  ]

  -- The rounds that are left.
  unfoldable pub iterate : ℕ → Search → Result RewriteError Search
  unfolding try_rules rules
  iterate zero s = ok s
  iterate (suc n) s = elim (try_rules rules s) [
    | changed s' ↦ iterate n s'
    | settled s' ↦ ok s'
    | limited s' ↦ ok s'
    | rejected e ↦ err e
  ]

  abbrev pub start : List Operation → Search
  start plan = record {
    current = plan;
    seen = signatures plan ∷ [];
    candidates = plan ∷ [];
    trace = [];
  }

  abbrev pub as_result : List Operation → Search → OptimizationResult
  as_result plan s = record {
    canonical_plan = plan;
    optimized_plan = s.current;
    candidate_plans = s.candidates;
    trace = s.trace;
    explored_plans = length s.seen;
  }

  unfoldable pub optimize_logical_plan :
      Bool → ℕ → List Operation → Result RewriteError OptimizationResult
  unfolding iterate
  optimize_logical_plan false max_iterations plan = ok (record {
    canonical_plan = plan;
    optimized_plan = plan;
    candidate_plans = plan ∷ [];
    trace = [];
    explored_plans = 1;
  })
  optimize_logical_plan true max_iterations plan =
      elim (iterate (max 1 max_iterations) (start plan)) [
        | err e ↦ err e
        | ok s ↦ ok (as_result plan s)
      ]
