-- ===== src/Core/PhysicalPlan.antt =====
-- src/smoking_data/core/physical_plan.py: the cost of task plans and the choice among them. Row and
-- byte counts are natural numbers; a decision is a dictionary of texts; the SHA-256 hash of a plan is
-- a parameter of `choose_physical_plan`.
pub mod Cost
pub mod Choice
pub mod Bounds
mod Examples
use smoking_data.Prelude.{
  ℕ, ◌+◌, ◌-◌, ◌*◌, ◌/◌, ◌^◌, max, min, String, Bool, true, false, not, ◌&&◌, ◌||◌, Option, none,
  some, List, [], ◌∷◌, ◌++◌, map, ltb, leb, ◌==◌, if◌then◌else◌, length, is_empty, keep, sum_by,
  max_by, str_eq,
}
use smoking_data.Prelude.Names.{contains, unique, add_name, union}
use smoking_data.Prelude.Result.{Result, ok, err}
use smoking_data.Prelude.Sort.{sort}
use smoking_data.Prelude.Lex.{lex_leb}

pub record SourceSpan : Type 0 where
  pub source_name : String
  pub path : String
  pub size_bytes : ℕ
  pub estimated_read_bytes : Option ℕ
  pub estimated_uncompressed_bytes : Option ℕ
  pub row_groups : List ℕ
  pub selected_rows : Option ℕ
  pub row_index_min : Option ℕ
  pub row_index_max : Option ℕ

pub record PhysicalTask : Type 0 where
  pub task_id : String
  pub partition_value : String
  pub batch_index : Option ℕ
  pub part_index : ℕ
  pub single_partition_guaranteed : Bool
  pub source_spans : List SourceSpan
  pub expected_input_rows : Option ℕ
  pub expected_output_rows : Option ℕ
  pub expected_payload_bytes : ℕ
  pub file_fanout : ℕ
  pub row_group_fanout : ℕ
  pub state_estimate_bytes : Option ℕ
  pub expected_spawn_overhead_units : ℕ
  pub execution_group_hint : ℕ
  pub risk : String

abbrev pub Decision : Type 0
Decision = List (String × String)

pub record PhysicalTaskPlan : Type 0 where
  pub logical_plan_hash : String
  pub tasks : List PhysicalTask
  pub decisions : List Decision
  pub rejected_candidates : List Decision
  pub version : String

pub record PhysicalPlanCost : Type 0 where
  pub feasible : Bool
  pub peak_state_bytes : Option ℕ
  pub payload_bytes : ℕ
  pub file_fanout : ℕ
  pub process_count : ℕ
  pub small_file_penalty : ℕ
  pub conservative_penalty : ℕ
  pub estimated_io_bytes : ℕ
  pub estimated_cpu_units : ℕ
  pub estimated_elapsed_units : ℕ
  pub estimated_spawn_overhead_units : ℕ
  pub estimated_writer_appends : ℕ
  pub estimated_output_files : ℕ
  pub estimated_partition_switches : ℕ

-- Python's `value or default` for an optional number: 0 counts as missing.
abbrev pub or_else : Option ℕ → ℕ → ℕ
or_else none d = d
or_else (some n) d = if n == 0 then d else n

unfoldable pub score : PhysicalPlanCost → List ℕ
score c =
    (if c.feasible then 0 else 1)
    ∷ c.conservative_penalty
    ∷ or_else c.peak_state_bytes (2 ^ 63 - 1)
    ∷ c.file_fanout
    ∷ c.small_file_penalty
    ∷ c.estimated_writer_appends
    ∷ c.estimated_output_files
    ∷ c.estimated_partition_switches
    ∷ c.estimated_elapsed_units
    ∷ c.estimated_spawn_overhead_units
    ∷ c.estimated_cpu_units
    ∷ c.estimated_io_bytes
    ∷ c.process_count
    ∷ []

pub record RowGroupPolicy : Type 0 where
  pub target_bytes : ℕ
  pub minimum_rows : ℕ
  pub maximum_rows : ℕ

abbrev pub default_row_groups : RowGroupPolicy
default_row_groups = record {
  target_bytes = 64 * 1024 * 1024;
  minimum_rows = 1_000;
  maximum_rows = 128_000;
}

-- The selected rows are kept within the minimum and the maximum; `override_rows` comes first.
unfoldable pub choose_output_row_group_rows : PhysicalTask → Option ℕ → RowGroupPolicy → ℕ
choose_output_row_group_rows task (some rows) policy = max 1 rows
choose_output_row_group_rows task none policy =
    let rows = or_else task.expected_input_rows (or_else task.expected_output_rows 0) in
    let row_width = max 1 (task.expected_payload_bytes / rows) in
    let selected = max 1 (policy.target_bytes / row_width) in
    if (rows == 0) || leb task.expected_payload_bytes 0
    then min policy.maximum_rows (max policy.minimum_rows 20_000)
    else min policy.maximum_rows (max policy.minimum_rows selected)

abbrev pub task_ids : List PhysicalTask → List String
task_ids tasks = map (λ (t : PhysicalTask). t.task_id) tasks

abbrev pub plan_version : String
plan_version = "smoking-data.physical-plan.v1"

-- The error holds the identifiers of the tasks.
unfoldable pub build_physical_plan :
    String
    → List PhysicalTask
    → List Decision
    → List Decision
    → Result (List String) PhysicalTaskPlan
build_physical_plan logical_plan_hash tasks decisions rejected =
    if not (length (task_ids tasks) == length (union [] (task_ids tasks)))
    then err (task_ids tasks)
    else ok (record {
      logical_plan_hash = logical_plan_hash;
      tasks = tasks;
      decisions = decisions;
      rejected_candidates = rejected;
      version = plan_version;
    })

abbrev pub rewrite_decision : String → Decision
rewrite_decision h =
    ("decision", "logical_rewrite_candidate")
    ∷ ("logical_plan_hash", h)
    ∷ ("task_shape", "semantic_equivalent")
    ∷ []

-- `list(dict.fromkeys(hashes))` keeps the first of equal hashes, as `union` does. The error is that
-- of an empty list of hashes.
unfoldable pub build_logical_physical_candidates :
    PhysicalTaskPlan → List String → Result (Unit {0}) (List PhysicalTaskPlan)
build_logical_physical_candidates template hashes =
    if is_empty (union [] hashes)
    then err tt
    else ok (
        map
          (λ h. record template {
            logical_plan_hash = h;
            decisions = template.decisions ++ rewrite_decision h ∷ [];
          })
          (union [] hashes))

abbrev pub known_states : List PhysicalTask → List ℕ
known_states [] = []
known_states (t ∷ ts) =
    let rest = known_states ts in elim t.state_estimate_bytes [ none ↦ rest | some n ↦ n ∷ rest ]

unfoldable pub admitted_worker_count : PhysicalTaskPlan → ℕ → ℕ → ℕ
admitted_worker_count plan requested_workers memory_budget_bytes =
    let requested = max 1 requested_workers in
    let estimates = keep (λ n. ltb 0 n) (known_states plan.tasks) in
    let memory_limited = max 1 (memory_budget_bytes / max_by (λ n. n) estimates) in
    if is_empty estimates
    then 1
    else min requested
        (min (if length plan.tasks == 0 then 1 else length plan.tasks) memory_limited)
