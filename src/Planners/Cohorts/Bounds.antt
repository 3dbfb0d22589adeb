-- ===== src/Planners/Cohorts/Bounds.antt =====
-- The slices and the cohorts that `build_planning_cohorts` makes are within the limits.
use smoking_data.Prelude.{
  ℕ, suc, ◌≡◌, refl, sym, ap, subst, ◌∙◌, String, Bool, false, Option, List, [], ◌∷◌, ◌++◌, map,
  flatten, arith, All, All-append, All-flatten, ◌⊎◌, inl, inr, length, drop, drop-append, is_empty,
}
use smoking_data.Prelude.Sort.{sort}
use smoking_data.Prelude.Sort.Laws.{All-sort}
use smoking_data.Prelude.Names.{union}
use smoking_data.Planners.Cohorts.{
  Source, Slice, Cohort, Weight, PreviousPlan, CohortPlan, empty_weight, add_weight, is_oversized,
  source_weight, sum_weights, sum_source_weights, split_runs, shards_of,
}
use smoking_data.Planners.Cohorts.Plan.{
  Reuse, as_cohort, as_slices, shard_sources, slices_of, slice_before, reused, open_sources,
  new_slices, new_cohorts, build_planning_cohorts, at_least_one,
}
use smoking_data.Planners.Cohorts.Runs.{IsRun, split_runs-IsRun, run_weight, flatten-split_runs}

-- The slice has the weight of its sources, and is within the limits or a single file.
pub record IsSlice (limits : Weight) (slice : Slice) : Type 0 where
  pub weighed : slice.weight ≡ sum_source_weights slice.sources
  pub within : (is_oversized slice.weight limits ≡ false) ⊎ (length slice.sources ≡ 1)

-- The cohort is within the limits or a single slice, and its slices are as they should be.
pub record IsCohort (limits : Weight) (cohort : Cohort) : Type 0 where
  pub some_slice : is_empty cohort.slices ≡ false
  pub within : (is_oversized cohort.weight limits ≡ false) ⊎ (length cohort.slices ≡ 1)
  pub slices : All (IsSlice limits) cohort.slices

-- Weights add up in any order of the sums.
sum_weights-flatten :
    (limits total : Weight) (slices : List Slice)
    → All (IsSlice limits) slices
    → sum_weights source_weight total (flatten (map (λ (i : Slice). i.sources) slices))
      ≡ sum_weights (λ (i : Slice). i.weight) total slices
unfolding sum_weights flatten
sum_weights-flatten limits total [] h = refl
sum_weights-flatten limits total (i ∷ slices) h =
    append total i.sources (flatten (map (λ (j : Slice). j.sources) slices))
    ∙ ap (λ w. sum_weights source_weight w (flatten (map (λ (j : Slice). j.sources) slices)))
        (from_empty total i.sources ∙ ap (add_weight total) (sym (h.0.weighed)))
    ∙ sum_weights-flatten limits (add_weight total i.weight) slices h.1
  where
    append :
        (t : Weight) (xs ys : List Source)
        → sum_weights source_weight t (xs ++ ys)
          ≡ sum_weights source_weight (sum_weights source_weight t xs) ys
    append t [] ys = refl
    append t (x ∷ xs) ys = append (add_weight t (source_weight x)) xs ys

    regroup : (a b c : Weight) → add_weight (add_weight a b) c ≡ add_weight a (add_weight b c)
    regroup a b c = ground arith

    start_at :
        (a b : Weight) (xs : List Source)
        → sum_weights source_weight (add_weight a b) xs
          ≡ add_weight a (sum_weights source_weight b xs)
    start_at a b [] = refl
    start_at a b (x ∷ xs) =
        ap (λ w. sum_weights source_weight w xs) (regroup a b (source_weight x))
        ∙ start_at a (add_weight b (source_weight x)) xs

    no_weight : (a : Weight) → add_weight a empty_weight ≡ a
    no_weight a = ground arith

    from_empty :
        (t : Weight) (xs : List Source)
        → sum_weights source_weight t xs ≡ add_weight t (sum_source_weights xs)
    from_empty t xs =
        ap (λ w. sum_weights source_weight w xs) (sym (no_weight t)) ∙ start_at t empty_weight xs

module _ (stable_id : String → List String → String) (str_leb : String → String → Bool)
    (limits : Weight) where
  as_slices-IsSlice :
      (id : String) (index : ℕ) (runs : List (List Source))
      → All (IsRun source_weight limits) runs
      → All (IsSlice limits) (as_slices stable_id str_leb id index runs)
  unfolding as_slices
  as_slices-IsSlice id index [] h = tt
  as_slices-IsSlice id index (run ∷ runs) h =
      (record { weighed = refl; within = h.0.within }, as_slices-IsSlice id (suc index) runs h.1)

  slices_of-IsSlice :
      (sources : List Source) (ids : List String)
      → All (IsSlice limits) (slices_of stable_id str_leb limits sources ids)
  unfolding slices_of
  slices_of-IsSlice sources [] = tt
  slices_of-IsSlice sources (id ∷ ids) =
      let runs = split_runs source_weight limits (shard_sources stable_id str_leb sources id) in
      All-append (IsSlice limits) (as_slices stable_id str_leb id 0 runs)
        (slices_of stable_id str_leb limits sources ids)
        (as_slices-IsSlice id 0 runs
          (split_runs-IsRun source_weight limits (shard_sources stable_id str_leb sources id)))
        (slices_of-IsSlice sources ids)

  new_slices-IsSlice :
      (sources : List Source) → All (IsSlice limits) (new_slices stable_id str_leb limits sources)
  unfolding new_slices
  new_slices-IsSlice sources =
      let ids = sort str_leb (union [] (shards_of sources)) in
      All-sort (slice_before stable_id str_leb) (IsSlice limits)
        (slices_of stable_id str_leb limits sources ids) (slices_of-IsSlice sources ids)

  as_cohort-IsCohort :
      (runs : List (List Slice))
      → All (IsRun (λ (i : Slice). i.weight) limits) runs
      → All (All (IsSlice limits)) runs
      → All (IsCohort limits) (map (as_cohort stable_id str_leb) runs)
  as_cohort-IsCohort [] h k = tt
  as_cohort-IsCohort (run ∷ runs) h k = (
    record { some_slice = h.0.some_item; within = weighed (h.0.within); slices = k.0 },
    as_cohort-IsCohort runs h.1 k.1,
  )
    where
      weighed :
          (is_oversized (run_weight (λ (i : Slice). i.weight) limits run) limits ≡ false)
            ⊎ (length run ≡ 1)
          → (is_oversized (sum_source_weights (flatten (map (λ (i : Slice). i.sources) run))) limits
              ≡ false)
            ⊎ (length run ≡ 1)
      weighed (inl w) = inl (
          subst (λ t. is_oversized t limits ≡ false)
            (sym (sum_weights-flatten limits empty_weight run k.0)) w)
      weighed (inr one) = inr one

  new_cohorts-IsCohort :
      (sources : List Source) → All (IsCohort limits) (new_cohorts stable_id str_leb limits sources)
  unfolding new_cohorts
  new_cohorts-IsCohort sources =
      let slices = new_slices stable_id str_leb limits sources in
      let runs = split_runs (λ (i : Slice). i.weight) limits slices in
      as_cohort-IsCohort runs (split_runs-IsRun (λ (i : Slice). i.weight) limits slices) (
        All-flatten (IsSlice limits) runs (
          subst (All (IsSlice limits))
            (sym (flatten-split_runs (λ (i : Slice). i.weight) limits slices))
            (new_slices-IsSlice sources)))

-- For all sources, targets and previous plans, the cohorts that are not reused have a slice, and are within
-- the limits of the plan or are a single slice; and each of their slices is within the limits or is a
-- single file.
pub build_planning_cohorts-IsCohort :
    (stable_id : String → List String → String) (str_leb : String → String → Bool)
    (sources : List Source) (targets : Weight) (previous_plan : Option PreviousPlan)
    (plan : CohortPlan)
    → plan ≡ build_planning_cohorts stable_id str_leb sources targets previous_plan
    → All (IsCohort plan.limits) (drop plan.reused_cohort_memberships plan.cohorts)
unfolding build_planning_cohorts
build_planning_cohorts-IsCohort stable_id str_leb sources targets previous_plan plan e =
    let limits = at_least_one targets in
    let old : Reuse = reused stable_id str_leb sources limits previous_plan in
    let new =
      new_cohorts stable_id str_leb limits (open_sources stable_id str_leb sources old.assigned) in
    subst (λ (p : CohortPlan). All (IsCohort p.limits) (drop p.reused_cohort_memberships p.cohorts))
      (sym e)
      (subst (All (IsCohort limits)) (sym (drop-append old.cohorts new)) (
        new_cohorts-IsCohort stable_id str_leb limits
          (open_sources stable_id str_leb sources old.assigned)))
