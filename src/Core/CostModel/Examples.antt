-- ===== src/Core/CostModel/Examples.antt =====
-- Runs of the cost model, and its theorems at concrete inputs.
use smoking_data.Prelude.{◌≡◌, ◌↔◌, refl, true, none, some, [], ◌∷◌, flatten, sum_by, All}
use smoking_data.Core.CostModel.{
  GroupCost, PackLimits, pack_group_costs, estimate_hash_state_bytes, estimate_window_state_bytes,
  summarize_task_cost, risk, bounded, is_some,
}
use smoking_data.Core.CostModel.Summary.{
  sum-input_rows-pack, risk-summarize_task_cost, totals-of-bounded,
}
use smoking_data.Core.CostModel.Tasks.{
  IsPacking, flatten-pack_group_costs, pack_group_costs-IsPacking,
}

abbrev limits : PackLimits
limits = record { max_rows = 10; max_bytes = 100; max_source_files = 2; max_groups = some 3 }

abbrev small : GroupCost
small = record {
  key = "a" ∷ [];
  rows = 4;
  payload_bytes = some 20;
  state_bytes = some 8;
  source_files = "x" ∷ "y" ∷ [];
}

abbrev large : GroupCost
large = record {
  key = "b" ∷ [];
  rows = 40;
  payload_bytes = none;
  state_bytes = some 8;
  source_files = "y" ∷ [];
}

pack_runs :
    pack_group_costs limits (small ∷ small ∷ small ∷ large ∷ small ∷ [])
    ≡ (small ∷ small ∷ []) ∷ (small ∷ []) ∷ (large ∷ []) ∷ (small ∷ []) ∷ []
unfolding pack_group_costs
pack_runs = refl

hash_estimate : estimate_hash_state_bytes 10 (some 8) (some 0) ≡ some 330
unfolding estimate_hash_state_bytes
hash_estimate = refl

window_estimate : estimate_window_state_bytes 10 (some 4) (some 0) ≡ some 200
unfolding estimate_window_state_bytes
window_estimate = refl

flatten-pack_group_costs_example :
    flatten (pack_group_costs limits (small ∷ small ∷ large ∷ [])) ≡ small ∷ small ∷ large ∷ []
flatten-pack_group_costs_example = flatten-pack_group_costs limits (small ∷ small ∷ large ∷ [])

pack_group_costs-IsPacking_example :
    IsPacking limits (pack_group_costs limits (small ∷ small ∷ large ∷ []))
pack_group_costs-IsPacking_example = pack_group_costs-IsPacking limits (small ∷ small ∷ large ∷ [])

sum-input_rows-pack_example :
    sum_by
      (λ t. (summarize_task_cost t 100).input_rows)
      (pack_group_costs limits (small ∷ large ∷ []))
    ≡ 44
sum-input_rows-pack_example = sum-input_rows-pack limits (small ∷ large ∷ []) 100

risk-summarize_task_cost_example :
    ((summarize_task_cost (small ∷ small ∷ []) 100).risk ≡ bounded)
    ↔ All (λ g. risk g ≡ bounded) (small ∷ small ∷ [])
risk-summarize_task_cost_example = risk-summarize_task_cost (small ∷ small ∷ []) 100

small-bounded : (summarize_task_cost (small ∷ small ∷ []) 100).risk ≡ bounded
unfolding summarize_task_cost
small-bounded = refl

totals-of-bounded_example :
    (is_some (summarize_task_cost (small ∷ small ∷ []) 100).payload_bytes ≡ true)
    × (is_some (summarize_task_cost (small ∷ small ∷ []) 100).state_bytes ≡ true)
totals-of-bounded_example = totals-of-bounded (small ∷ small ∷ []) 100 small-bounded
