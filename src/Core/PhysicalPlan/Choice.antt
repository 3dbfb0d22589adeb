-- ===== src/Core/PhysicalPlan/Choice.antt =====
-- `choose_physical_plan` of src/smoking_data/core/physical_plan.py. The hash of a plan, SHA-256 over
-- its JSON text, is the parameter `plan_hash`; the error is that of an empty list of candidates.
use smoking_data.Prelude.{
  ℕ, ◌≡◌, ◌⊎◌, refl, String, Bool, true, false, Option, none, some, List, [], ◌∷◌, arith, map,
  subst, sym, if◌then◌else◌, All, All-map, Mem, List-cases, str_eq, inl, inr, Bool-cases,
}
use mathlib.Core.List.{mem-cons_self, mem-cons_of_mem}
use smoking_data.Prelude.Result.{Result, ok, err}
use smoking_data.Prelude.Sort.{sort}
use smoking_data.Prelude.Sort.Laws.{
  sort-All, All-sort, IsSorted, sort-IsSorted, insert_sorted-ne-nil,
}
use smoking_data.Prelude.Lex.{lex_leb, lex_leb-IsOrder}
use smoking_data.Core.PhysicalPlan.{PhysicalTaskPlan, PhysicalPlanCost, score}
use smoking_data.Core.PhysicalPlan.Cost.{
  estimate_plan_cost, IsBudgeted, feasible-estimate_plan_cost,
}

pub record TraceEntry : Type 0 where
  pub physical_plan_hash : String
  pub chosen : Bool
  pub cost : PhysicalPlanCost
  pub score : List ℕ
  pub rejected_reason : Option String
  pub selection_reason : Option String

abbrev Ranked : Type 0
Ranked = PhysicalPlanCost × PhysicalTaskPlan

abbrev by_score : Ranked → Ranked → Bool
by_score a b = lex_leb (score a.0) (score b.0)

module _ (plan_hash : PhysicalTaskPlan → String)
    (memory_budget_bytes target_rows_per_part : ℕ) where
  abbrev cost_of : PhysicalTaskPlan → PhysicalPlanCost
  cost_of c = estimate_plan_cost c memory_budget_bytes target_rows_per_part

  abbrev with_costs : List PhysicalTaskPlan → List Ranked
  with_costs candidates = map (λ c. (cost_of c, c)) candidates

  abbrev trace_entry : PhysicalTaskPlan → Ranked → TraceEntry
  trace_entry best (cost, candidate) =
      let same = str_eq (plan_hash candidate) (plan_hash best) in
      record {
        physical_plan_hash = plan_hash candidate;
        chosen = same;
        cost = cost;
        score = score cost;
        rejected_reason = if same then none else some "higher_cost_or_memory_risk";
        selection_reason = none;
      }

  -- `trace[0]["selection_reason"] = ...`, unless the chosen plan is feasible.
  abbrev mark_fallback : Bool → List TraceEntry → List TraceEntry
  mark_fallback true trace = trace
  mark_fallback false [] = []
  mark_fallback false (e ∷ trace) =
      record e { selection_reason = some "no_fully_bounded_candidate; conservative fallback" }
      ∷ trace

  choose_ranked : List Ranked → Result (Unit {0}) (PhysicalTaskPlan × List TraceEntry)
  choose_ranked [] = err tt
  choose_ranked ((cost, best) ∷ rest) =
      ok (best, mark_fallback cost.feasible (map (trace_entry best) ((cost, best) ∷ rest)))

  unfoldable pub choose_physical_plan :
      List PhysicalTaskPlan → Result (Unit {0}) (PhysicalTaskPlan × List TraceEntry)
  unfolding choose_ranked
  choose_physical_plan candidates = choose_ranked (sort by_score (with_costs candidates))

  pub record IsBest (candidates : List PhysicalTaskPlan) (best : PhysicalTaskPlan) : Type 0 where
    pub among : Mem best candidates
    pub least : All (λ c. lex_leb (score (cost_of best)) (score (cost_of c)) ≡ true) candidates

  -- The chosen plan may be infeasible only if every candidate is.
  pub IsBest-feasible :
      (candidates : List PhysicalTaskPlan) (best c : PhysicalTaskPlan)
      → lex_leb (score (cost_of best)) (score (cost_of c)) ≡ true
      → (cost_of c).feasible ≡ true
      → (cost_of best).feasible ≡ true
  unfolding score
  IsBest-feasible candidates best c le f = ground arith

  All-with_costs {ℓ} :
      (P : Ranked → Type ℓ) (candidates : List PhysicalTaskPlan)
      → All (λ c. P (cost_of c, c)) candidates
      → All P (with_costs candidates)
  All-with_costs P [] h = tt
  All-with_costs P (c ∷ cs) h = (h.0, All-with_costs P cs h.1)

  with_costs-All {ℓ} :
      (P : Ranked → Type ℓ) (candidates : List PhysicalTaskPlan)
      → All P (with_costs candidates)
      → All (λ c. P (cost_of c, c)) candidates
  with_costs-All P [] h = tt
  with_costs-All P (c ∷ cs) h = (h.0, with_costs-All P cs h.1)

  All-mem : (candidates : List PhysicalTaskPlan) → All (λ c. Mem c candidates) candidates
  All-mem [] = tt
  All-mem (c ∷ cs) =
      (mem-cons_self, All-map (λ d. Mem d (c ∷ cs)) cs (λ d m. mem-cons_of_mem c m) (All-mem cs))

  by_score_refl : (x : Ranked) → by_score x x ≡ true
  by_score_refl x = elim (Bool-cases (by_score x x)) [
    | inl e ↦ e
    | inr e ↦ (lex_leb-IsOrder (λ (y : Ranked). score y.0)).total x x e
  ]

  -- What the first of the sorted candidates is.
  first-IsBest :
      (candidates : List PhysicalTaskPlan) (cost : PhysicalPlanCost) (best : PhysicalTaskPlan)
      (rest : List Ranked)
      → sort by_score (with_costs candidates) ≡ (cost, best) ∷ rest
      → IsBest candidates best
  first-IsBest candidates cost best rest e =
      let sorted =
        sort-IsSorted by_score (lex_leb-IsOrder (λ (x : Ranked). score x.0))
          (with_costs candidates) in
      let sorted' =
        subst (λ l. IsSorted by_score (lex_leb-IsOrder (λ (x : Ranked). score x.0)) l) e sorted in
      let costs = subst (All (λ (x : Ranked). x.0 ≡ cost_of x.1)) e (
        All-sort by_score (λ (x : Ranked). x.0 ≡ cost_of x.1) (with_costs candidates)
          (All-with_costs (λ (x : Ranked). x.0 ≡ cost_of x.1) candidates
            (All-map (λ c. cost_of c ≡ cost_of c) candidates (λ c m. refl)
              (All-mem candidates)))) in
      let members = subst (All (λ (x : Ranked). Mem x.1 candidates)) e (
        All-sort by_score (λ (x : Ranked). Mem x.1 candidates) (with_costs candidates)
          (All-with_costs (λ (x : Ranked). Mem x.1 candidates) candidates (All-mem candidates))) in
      let behind =
        subst (All (λ (x : Ranked). by_score (cost, best) x ≡ true)) (sym e)
          (by_score_refl (cost, best), sorted'.0) in
      record {
        among = members.0;
        least =
            subst (λ k. All (λ c. lex_leb (score k) (score (cost_of c)) ≡ true) candidates) costs.0
              (with_costs-All (λ x. by_score (cost, best) x ≡ true) candidates
                (sort-All by_score (λ x. by_score (cost, best) x ≡ true) (with_costs candidates)
                  behind));
      }

  fits-or-none :
      (candidates : List PhysicalTaskPlan) (best : PhysicalTaskPlan)
      → IsBest candidates best
      → All (IsBudgeted memory_budget_bytes) best.tasks
        ⊎ All (λ d. ¬ All (IsBudgeted memory_budget_bytes) d.tasks) candidates
  fits-or-none candidates best h = elim (Bool-cases (cost_of best).feasible) [
    | inl fits ↦
        inl ((feasible-estimate_plan_cost best memory_budget_bytes target_rows_per_part).0 fits)
    | inr over ↦ inr (
        All-map (λ d. ¬ All (IsBudgeted memory_budget_bytes) d.tasks) candidates
          (λ d le fits.
            let same =
              IsBest-feasible candidates best d le
                ((feasible-estimate_plan_cost d memory_budget_bytes target_rows_per_part).1 fits) in
            ground (arith, over, same))
          h.least)
  ]

  -- The call returns one of the candidates with the least score, and it fits the budget, or no candidate does.
  abbrev pub IsChoice : List PhysicalTaskPlan → Type 0
  IsChoice candidates =
      (best : PhysicalTaskPlan) × (trace : List TraceEntry) × (choose_physical_plan candidates
        ≡ ok (best, trace))
      × IsBest candidates best
      × (All (IsBudgeted memory_budget_bytes) best.tasks
          ⊎ All (λ d. ¬ All (IsBudgeted memory_budget_bytes) d.tasks) candidates)

  -- A call with at least one candidate returns one of them whose score is least among the candidates'
  -- scores. Its task states are all known and within the budget, unless this holds of no candidate.
  pub choose_physical_plan-IsBest :
      (c : PhysicalTaskPlan) (cs : List PhysicalTaskPlan) → IsChoice (c ∷ cs)
  unfolding choose_physical_plan
  choose_physical_plan-IsBest c cs = elim (List-cases (sort by_score (with_costs (c ∷ cs)))) [
    | inl none_left ↦ absurd (insert_sorted-ne-nil by_score _ _ none_left)
    | inr ((cost, best), rest, e) ↦
        let is_best = first-IsBest (c ∷ cs) cost best rest e in
        (
          best,
          mark_fallback cost.feasible (map (trace_entry best) ((cost, best) ∷ rest)),
          rw (e, choose_ranked) refl,
          is_best,
          fits-or-none (c ∷ cs) best is_best,
        )
  ]
