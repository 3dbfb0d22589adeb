-- ===== src/Core/CostModel/Summary.antt =====
-- `summarize_task_cost` over the tasks of a packing, and what its risk means.
use smoking_data.Prelude.{
  ℕ, ◌≡◌, refl, ap, ◌∙◌, ◌↔◌, Bool, true, ◌&&◌, Option, none, some, List, [], ◌∷◌, ◌++◌, map,
  flatten, arith, all, sum_by, sum_by-append, All,
}
use smoking_data.Core.CostModel.{
  bounded, GroupCost, PackLimits, pack_group_costs, risk, is_some, summarize_task_cost, sum_known,
}
use smoking_data.Core.CostModel.Tasks.{flatten-pack_group_costs}

sum_by-flatten :
    (f : GroupCost → ℕ) (tasks : List (List GroupCost))
    → sum_by (λ t. sum_by f t) tasks ≡ sum_by f (flatten tasks)
unfolding flatten
sum_by-flatten f [] = refl
sum_by-flatten f (t ∷ tasks) =
    omega (arith, sum_by-flatten f tasks, sum_by-append f t (flatten tasks))

-- The input rows that the summaries of the packed tasks report add up to the rows of all groups,
-- for all limits, groups and targets.
pub sum-input_rows-pack :
    (l : PackLimits) (groups : List GroupCost) (target : ℕ)
    → sum_by (λ t. (summarize_task_cost t target).input_rows) (pack_group_costs l groups)
      ≡ sum_by (λ (g : GroupCost). g.rows) groups
unfolding summarize_task_cost
sum-input_rows-pack l groups target =
    sum_by-flatten (λ (g : GroupCost). g.rows) (pack_group_costs l groups)
    ∙ ap (sum_by (λ (g : GroupCost). g.rows)) (flatten-pack_group_costs l groups)

all-append :
    (p : Option ℕ → Bool) (xs ys : List (Option ℕ)) → all p (xs ++ ys) ≡ (all p xs && all p ys)
all-append p [] ys = refl
all-append p (x ∷ xs) ys = ground (arith, all-append p xs ys)

abbrev payloads : List GroupCost → List (Option ℕ)
payloads items = map (λ (g : GroupCost). g.payload_bytes) items

abbrev states : List GroupCost → List (Option ℕ)
states items = map (λ (g : GroupCost). g.state_bytes) items

all-payloads-states :
    (items : List GroupCost)
    → (all is_some (payloads items) && all is_some (states items) ≡ true)
      ↔ All (λ g. risk g ≡ bounded) items
unfolding risk
all-payloads-states [] = (λ _. tt, λ _. refl)
all-payloads-states (g ∷ gs) =
    let (from, to) = all-payloads-states gs in
    (λ h. (ground arith, from (ground arith)), λ (first, rest). let known = to rest in ground arith)

-- The summary of a task is of bounded risk exactly when each of its groups is.
pub risk-summarize_task_cost :
    (items : List GroupCost) (target : ℕ)
    → ((summarize_task_cost items target).risk ≡ bounded) ↔ All (λ g. risk g ≡ bounded) items
unfolding summarize_task_cost
risk-summarize_task_cost items target =
    let (from, to) = all-payloads-states items in
    let split = all-append is_some (payloads items) (states items) in
    (λ h. from (ground arith), λ h. let known = to h in ground arith)

is_some-sum_known : (vs : List (Option ℕ)) → is_some (sum_known vs) ≡ all is_some vs
unfolding sum_known
is_some-sum_known [] = refl
is_some-sum_known (none ∷ vs) = refl
is_some-sum_known (some n ∷ vs) = ground (arith, is_some-sum_known vs)

-- A summary of bounded risk has both totals.
pub totals-of-bounded :
    (items : List GroupCost) (target : ℕ)
    → (summarize_task_cost items target).risk ≡ bounded
    → (is_some (summarize_task_cost items target).payload_bytes ≡ true)
      × (is_some (summarize_task_cost items target).state_bytes ≡ true)
unfolding summarize_task_cost
totals-of-bounded items target h =
    rw (is_some-sum_known (payloads items), is_some-sum_known (states items))
      (ground (arith, all-append is_some (payloads items) (states items)))
