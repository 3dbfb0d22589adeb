-- ===== src/Core/PhysicalPlan/Examples.antt =====
-- Plans on concrete inputs, and the theorems about plans at them.
use smoking_data.Prelude.{
  ℕ, ◌≡◌, ◌≤◌, ◌↔◌, refl, String, true, none, some, [], ◌∷◌, length, All, max, arith,
}
use smoking_data.Prelude.Result.{err}
use smoking_data.Core.PhysicalPlan.{
  SourceSpan, PhysicalTask, PhysicalTaskPlan, choose_output_row_group_rows, default_row_groups,
  build_physical_plan, admitted_worker_count, plan_version,
}
use smoking_data.Core.PhysicalPlan.Cost.{
  estimate_plan_cost, IsBudgeted, feasible-estimate_plan_cost,
}
use smoking_data.Core.PhysicalPlan.Choice.{
  choose_physical_plan, IsChoice, choose_physical_plan-IsBest,
}
use smoking_data.Core.PhysicalPlan.Bounds.{
  FitsTogether, admitted_worker_count_bounds, choose_output_row_group_rows_bounds,
}

abbrev span : SourceSpan
span = record {
  source_name = "fact";
  path = "part-0.parquet";
  size_bytes = 8192;
  estimated_read_bytes = some 4096;
  estimated_uncompressed_bytes = none;
  row_groups = 0 ∷ 1 ∷ [];
  selected_rows = some 100;
  row_index_min = none;
  row_index_max = none;
}

abbrev task : String → ℕ → PhysicalTask
task x state = record {
  task_id = x;
  partition_value = "2024";
  batch_index = none;
  part_index = 0;
  single_partition_guaranteed = true;
  source_spans = span ∷ [];
  expected_input_rows = some 1000;
  expected_output_rows = some 900;
  expected_payload_bytes = 64000;
  file_fanout = 1;
  row_group_fanout = 2;
  state_estimate_bytes = some state;
  expected_spawn_overhead_units = 0;
  execution_group_hint = 1;
  risk = "bounded";
}

abbrev heavy : PhysicalTaskPlan
heavy = record {
  logical_plan_hash = "heavy";
  tasks = task "a" 5000 ∷ [];
  decisions = [];
  rejected_candidates = [];
  version = plan_version;
}

abbrev light : PhysicalTaskPlan
light = record heavy { logical_plan_hash = "light"; tasks = task "a" 300 ∷ task "b" 400 ∷ [] }

program : Unit {0}
unfolding admitted_worker_count choose_output_row_group_rows estimate_plan_cost choose_physical_plan
    build_physical_plan
program = tt

admitted_light : admitted_worker_count light 8 1000 ≡ 2
unfolding program
admitted_light = refl

rows_light : choose_output_row_group_rows (task "a" 300) none default_row_groups ≡ 128000
unfolding program
rows_light = refl

built_twice : build_physical_plan "h" (task "a" 1 ∷ task "a" 2 ∷ []) [] [] ≡ err ("a" ∷ "a" ∷ [])
unfolding program
built_twice = refl

feasible-estimate_plan_cost_example :
    ((estimate_plan_cost light 1000 100).feasible ≡ true) ↔ All (IsBudgeted 1000) (light.tasks)
feasible-estimate_plan_cost_example = feasible-estimate_plan_cost light 1000 100

choose_physical_plan-IsBest_example :
    IsChoice (λ p. p.logical_plan_hash) 1000 100 (heavy ∷ light ∷ [])
choose_physical_plan-IsBest_example =
    choose_physical_plan-IsBest (λ p. p.logical_plan_hash) 1000 100 heavy (light ∷ [])

admitted_worker_count_bounds_example :
    (1 ≤ admitted_worker_count light 8 1000)
    × (admitted_worker_count light 8 1000 ≤ max 1 8)
    × (admitted_worker_count light 8 1000 ≤ max 1 (length (light.tasks)))
    × All (FitsTogether (admitted_worker_count light 8 1000) 1000) (light.tasks)
admitted_worker_count_bounds_example = admitted_worker_count_bounds light 8 1000

default-in-order : default_row_groups.minimum_rows ≤ default_row_groups.maximum_rows
default-in-order = omega arith

choose_output_row_group_rows_bounds_example :
    (default_row_groups.minimum_rows
      ≤ choose_output_row_group_rows (task "a" 300) none default_row_groups)
    × (choose_output_row_group_rows (task "a" 300) none default_row_groups
        ≤ default_row_groups.maximum_rows)
choose_output_row_group_rows_bounds_example =
    choose_output_row_group_rows_bounds (task "a" 300) default_row_groups default-in-order
