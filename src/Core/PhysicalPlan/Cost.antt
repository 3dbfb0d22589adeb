-- ===== src/Core/PhysicalPlan/Cost.antt =====
-- `estimate_plan_cost` of src/smoking_data/core/physical_plan.py.
use smoking_data.Prelude.{
  ℕ, ◌+◌, ◌-◌, ◌*◌, ◌/◌, ◌≤◌, ◌≡◌, ◌↔◌, refl, max, Bool, true, false, ◌&&◌, Option, none, some,
  List, [], ◌∷◌, arith, ltb, leb, ◌==◌, if◌then◌else◌, length, sum_by, max_by, All, Option-cases,
  inl, inr,
}
use smoking_data.Core.PhysicalPlan.{
  SourceSpan, PhysicalTask, PhysicalTaskPlan, PhysicalPlanCost, or_else, known_states,
}

unknown_states : List PhysicalTask → ℕ
unknown_states tasks =
    sum_by (λ (t : PhysicalTask). elim t.state_estimate_bytes [ none ↦ 1 | some n ↦ 0 ]) tasks

-- `max(known_states, default=None)`
peak_of : List ℕ → Option ℕ
peak_of [] = none
peak_of (n ∷ ns) = some (max_by (λ m. m) (n ∷ ns))

span_read_bytes : SourceSpan → ℕ
span_read_bytes s = elim s.estimated_read_bytes [ none ↦ s.size_bytes | some n ↦ n ]

is_small : ℕ → PhysicalTask → Bool
is_small target t = elim t.expected_output_rows [
  | none ↦ false
  | some rows ↦ ltb rows (max 1 (target / 4))
]

task_cpu_units : PhysicalTask → ℕ
task_cpu_units t =
    max 0 (or_else t.expected_input_rows 0) + max 0 (or_else t.expected_output_rows 0)

task_switches : PhysicalTask → ℕ
task_switches t = if t.single_partition_guaranteed then 0 else max 0 (t.file_fanout - 1)

task_elapsed_units : PhysicalTask → ℕ
unfolding span_read_bytes
task_elapsed_units t =
    max 0 (or_else t.expected_input_rows 0)
    + max 0 (or_else t.expected_output_rows 0)
    + max 1 t.row_group_fanout * 128
    + (if t.single_partition_guaranteed then 0 else max 0 (t.file_fanout - 1) * 256)
    + max 0 t.expected_spawn_overhead_units
    + sum_by (λ s. span_read_bytes s / 4096) t.source_spans

unfoldable pub estimate_plan_cost : PhysicalTaskPlan → ℕ → ℕ → PhysicalPlanCost
unfolding unknown_states peak_of span_read_bytes is_small task_cpu_units task_switches
    task_elapsed_units
estimate_plan_cost plan memory_budget_bytes target_rows_per_part =
    let peak = peak_of (known_states plan.tasks) in
    record {
      feasible = (unknown_states plan.tasks == 0) && leb (or_else peak 0) memory_budget_bytes;
      peak_state_bytes = peak;
      payload_bytes = sum_by (λ (t : PhysicalTask). t.expected_payload_bytes) plan.tasks;
      file_fanout = max_by (λ (t : PhysicalTask). t.file_fanout) plan.tasks;
      process_count = length plan.tasks;
      small_file_penalty =
          sum_by (λ t. if is_small target_rows_per_part t then 1 else 0) plan.tasks;
      conservative_penalty = unknown_states plan.tasks;
      estimated_io_bytes =
          sum_by (λ (t : PhysicalTask). sum_by span_read_bytes t.source_spans) plan.tasks;
      estimated_cpu_units = sum_by task_cpu_units plan.tasks;
      estimated_elapsed_units = max_by task_elapsed_units plan.tasks;
      estimated_spawn_overhead_units =
          sum_by (λ (t : PhysicalTask). max 0 t.expected_spawn_overhead_units) plan.tasks;
      estimated_writer_appends = sum_by (λ (t : PhysicalTask). max 1 t.row_group_fanout) plan.tasks;
      estimated_output_files = length plan.tasks;
      estimated_partition_switches = sum_by task_switches plan.tasks;
    }

-- The task's state estimate is known and within the budget.
abbrev pub IsBudgeted : ℕ → PhysicalTask → Type 0
IsBudgeted budget t = (n : ℕ) × (t.state_estimate_bytes ≡ some n) × (n ≤ budget)

abbrev within : ℕ → List PhysicalTask → Bool
within budget tasks =
    (unknown_states tasks == 0) && leb (max_by (λ n. n) (known_states tasks)) budget

abbrev state_within : ℕ → PhysicalTask → Bool
state_within budget t = elim t.state_estimate_bytes [ none ↦ false | some n ↦ leb n budget ]

within-nil : (budget : ℕ) → within budget [] ≡ true
unfolding unknown_states
within-nil budget = ground arith

within-cons :
    (budget : ℕ) (t : PhysicalTask) (ts : List PhysicalTask)
    → within budget (t ∷ ts) ≡ (state_within budget t && within budget ts)
unfolding unknown_states
within-cons budget t ts = ground arith

state_within_iff :
    (budget : ℕ) (t : PhysicalTask) → (state_within budget t ≡ true) ↔ IsBudgeted budget t
state_within_iff budget t = elim (Option-cases t.state_estimate_bytes) [
  | inl missing ↦ (λ h. ground arith, λ (n, e, le). ground arith)
  | inr (n, e) ↦ (λ h. (n, e, ground arith), λ (m, e', le). ground arith)
]

within_iff :
    (budget : ℕ) (tasks : List PhysicalTask)
    → (within budget tasks ≡ true) ↔ All (IsBudgeted budget) tasks
within_iff budget [] = (λ _. tt, λ _. within-nil budget)
within_iff budget (t ∷ ts) =
    let (from, to) = state_within_iff budget t in
    let (froms, tos) = within_iff budget ts in
    rw within-cons (
      λ h. (from (ground arith), froms (ground arith)),
      λ (first, rest). let h = to first in let hs = tos rest in ground arith,
    )

peak_of-or_else : (ns : List ℕ) → or_else (peak_of ns) 0 ≡ max_by (λ n. n) ns
unfolding peak_of
peak_of-or_else [] = refl
peak_of-or_else (n ∷ ns) = ground arith

-- A plan is feasible exactly when each of its tasks has a known state estimate within the budget.
pub feasible-estimate_plan_cost :
    (plan : PhysicalTaskPlan) (budget target : ℕ)
    → ((estimate_plan_cost plan budget target).feasible ≡ true) ↔ All (IsBudgeted budget) plan.tasks
unfolding estimate_plan_cost
feasible-estimate_plan_cost plan budget target =
    rw (peak_of-or_else (known_states plan.tasks)) (within_iff budget plan.tasks)
