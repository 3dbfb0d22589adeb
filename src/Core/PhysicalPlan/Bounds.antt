-- ===== src/Core/PhysicalPlan/Bounds.antt =====
-- The bounds on workers and row groups, and the identity of tasks and candidates.
use smoking_data.Prelude.{
  ℕ, ◌*◌, ◌/◌, ◌≤◌, ◌≡◌, refl, sym, subst, ◌∙◌, max, min, String, true, none, some, List, [], ◌∷◌,
  arith, ltb, leb, ◌==◌, ==_iff, if◌then◌else◌, length, is_empty, keep, max_by, All, All-map,
  Bool-cases, ◌⊎◌, inl, inr,
}
use native.Mathlib.Nat.{div-mul-le_self}
use Prim.Native.Nat.add
use smoking_data.Prelude.Names.Sizes.{unique-of_union}
use smoking_data.Prelude.Names.{unique, union}
use smoking_data.Prelude.Result.{ok}
use smoking_data.Core.PhysicalPlan.{
  PhysicalTask, PhysicalTaskPlan, Decision, RowGroupPolicy, known_states, task_ids,
  choose_output_row_group_rows, build_physical_plan, admitted_worker_count,
}

-- Without an override the rows of a row group lie between the minimum and the maximum, if these are
-- in order.
pub choose_output_row_group_rows_bounds :
    (task : PhysicalTask) (policy : RowGroupPolicy)
    → policy.minimum_rows ≤ policy.maximum_rows
    → (policy.minimum_rows ≤ choose_output_row_group_rows task none policy)
      × (choose_output_row_group_rows task none policy ≤ policy.maximum_rows)
unfolding choose_output_row_group_rows
choose_output_row_group_rows_bounds task policy h = ground arith

-- With an unknown estimate counted as 0.
abbrev pub state_bytes : PhysicalTask → ℕ
state_bytes t = elim t.state_estimate_bytes [ none ↦ 0 | some n ↦ n ]

-- If every worker held the state of the task, they would stay within the memory budget together,
-- unless there is one worker only.
abbrev pub FitsTogether : ℕ → ℕ → PhysicalTask → Type 0
FitsTogether workers budget t = (workers ≡ 1) ⊎ (workers * state_bytes t ≤ budget)

known_states-le :
    (tasks : List PhysicalTask)
    → All (λ t. state_bytes t ≤ max_by (λ m. m) (keep (λ m. ltb 0 m) (known_states tasks))) tasks
known_states-le [] = tt
known_states-le (t ∷ ts) = (
  ground arith,
  All-map (λ u. state_bytes u ≤ max_by (λ m. m) (keep (λ m. ltb 0 m) (known_states (t ∷ ts)))) ts
      (λ u h. ground (arith, h)) (known_states-le ts),
)

mul-le : (a b c d : ℕ) → a ≤ b → c ≤ d → a * c ≤ b * d
mul-le a b c d h k = grind arith

fits_budget : (w budget top n : ℕ) → w ≤ max 1 (budget / top) → n ≤ top → (w ≤ 1) ⊎ (w * n ≤ budget)
fits_budget w budget top n h le = elim (Bool-cases (leb w 1)) [
  | inl one ↦ inl (ground arith)
  | inr more ↦
      let fewer : w ≤ budget / top = ground arith in
      inr (omega (arith, mul-le w (budget / top) n top fewer le, div-mul-le_self budget top))
]

FitsTogether-of_le :
    (plan : PhysicalTaskPlan) (requested budget n : ℕ)
    → n ≤ max_by (λ m. m) (keep (λ m. ltb 0 m) (known_states plan.tasks))
    → (admitted_worker_count plan requested budget ≡ 1)
      ⊎ (admitted_worker_count plan requested budget * n ≤ budget)
unfolding admitted_worker_count
FitsTogether-of_le plan requested budget n below =
    let estimates = keep (λ m. ltb 0 m) (known_states plan.tasks) in
    elim (Bool-cases (is_empty estimates)) [
      | inl unknown ↦ inl (rw unknown refl)
      | inr known ↦
          let limited = min (max 1 requested) (
            min (if length plan.tasks == 0 then 1 else length plan.tasks)
              (max 1 (budget / max_by (λ m. m) estimates))) in
          rw known
            (elim (fits_budget limited budget (max_by (λ m. m) estimates) n (omega arith) below) [
              | inl one ↦ inl (ground arith)
              | inr fits ↦ inr fits
            ])
    ]

-- At least one worker is admitted, at most the requested number (or one), and at most one for each
-- task (or one); and with the known state estimate of any task, all the workers together stay within
-- the memory budget, unless only one is admitted.
pub admitted_worker_count_bounds :
    (plan : PhysicalTaskPlan) (requested budget : ℕ)
    → let workers = admitted_worker_count plan requested budget in
      (1 ≤ workers)
      × (workers ≤ max 1 requested)
      × (workers ≤ max 1 (length plan.tasks))
      × All (FitsTogether workers budget) plan.tasks
unfolding admitted_worker_count
admitted_worker_count_bounds plan requested budget = (
  ground arith,
  ground arith,
  ground arith,
  All-map (FitsTogether (admitted_worker_count plan requested budget) budget) plan.tasks
      (λ t below. FitsTogether-of_le plan requested budget (state_bytes t) below)
      (known_states-le plan.tasks),
)

-- A plan that is built has the given tasks, and no two of them have one identifier.
pub build_physical_plan-ok :
    (h : String) (tasks : List PhysicalTask) (decisions rejected : List Decision)
    (plan : PhysicalTaskPlan)
    → build_physical_plan h tasks decisions rejected ≡ ok plan
    → (plan.tasks ≡ tasks) × (unique (task_ids plan.tasks) ≡ true)
unfolding build_physical_plan
build_physical_plan-ok h tasks decisions rejected plan e =
    elim (Bool-cases (length (task_ids tasks) == length (union [] (task_ids tasks)))) [
      | inl same ↦
          let given : plan.tasks ≡ tasks = ground arith in
          (
            given,
            subst (λ ts. unique (task_ids ts) ≡ true) (sym given)
                (unique-of_union [] (task_ids tasks)
                  (sym ((==_iff (length (task_ids tasks)) _).0 same) ∙ sym (add.zero _))).0,
          )
      | inr repeated ↦ ground arith
    ]
