-- ===== src/Planners/Cohorts/Shards.antt =====
-- The slices of the shards and the new cohorts hold each of their sources as often as it was given.
use smoking_data.Prelude.{
  ℕ, suc, ◌+◌, ◌≡◌, refl, ap, ◌∙◌, String, Bool, true, List, [], ◌∷◌, map, flatten, arith, str_eq,
  eq_iff, sum_by, sum_by-append, if◌then◌else◌, keep, all,
}
use smoking_data.Prelude.Names.{contains, unique, union}
use smoking_data.Prelude.Names.Laws.{contains-sort, contains-union, unique-sort}
use smoking_data.Prelude.Sort.{sort}
use smoking_data.Planners.Cohorts.{
  Source, Slice, Cohort, Weight, shards_of, source_weight, split_runs,
}
use smoking_data.Planners.Cohorts.Plan.{
  as_cohort, as_slices, name_of, shard_sources, slices_of, slice_before, new_slices, new_cohorts,
}
use smoking_data.Planners.Cohorts.Runs.{flatten-split_runs}
use smoking_data.Planners.Cohorts.Counts.{
  count, held, sum_by-congr, sum_by_plus, sum_by-sort, sum_by_zero, unique-union, held-append,
  held-sort,
}

-- One of the shards is the one looked for.
sum_by_one :
    (k : String) (n : ℕ) (ids : List String)
    → unique ids ≡ true
    → sum_by (λ id. if str_eq k id then n else 0) ids ≡ (if contains k ids then n else 0)
sum_by_one k n [] u = refl
sum_by_one k n (id ∷ ids) u = ground (arith, sum_by_one k n ids, eq_iff k id)

held_cons :
    (x : String) (s : Source) (sources : List Source) (id : String)
    → held x (keep (λ t. str_eq t.dataset_shard_id id) (s ∷ sources))
      ≡ (if str_eq s.dataset_shard_id id then (if str_eq x s.path then 1 else 0) else 0)
        + held x (keep (λ t. str_eq t.dataset_shard_id id) sources)
held_cons x s sources id = ground arith

-- The sources by shard are all sources.
held-shards :
    (x : String) (ids : List String) (sources : List Source)
    → unique ids ≡ true
    → all (λ (s : Source). contains s.dataset_shard_id ids) sources ≡ true
    → sum_by (λ id. held x (keep (λ t. str_eq t.dataset_shard_id id) sources)) ids ≡ held x sources
held-shards x ids [] u h = sum_by_zero ids
held-shards x ids (s ∷ sources) u h =
    let n = if str_eq x s.path then 1 else 0 in
    sum_by-congr (λ id. held x (keep (λ t. str_eq t.dataset_shard_id id) (s ∷ sources)))
      (λ id.
        (if str_eq s.dataset_shard_id id then n else 0)
        + held x (keep (λ t. str_eq t.dataset_shard_id id) sources))
      ids (held_cons x s sources)
    ∙ sum_by_plus (λ id. if str_eq s.dataset_shard_id id then n else 0)
        (λ id. held x (keep (λ t. str_eq t.dataset_shard_id id) sources)) ids
    ∙ ground (arith, sum_by_one s.dataset_shard_id n ids u, held-shards x ids sources u)

all_shards :
    (sources : List Source) (ids : List String)
    → ((k : String) → contains k (shards_of sources) ≡ true → contains k ids ≡ true)
    → all (λ (s : Source). contains s.dataset_shard_id ids) sources ≡ true
all_shards [] ids h = refl
all_shards (s ∷ sources) ids h =
    let rest = all_shards sources ids λ k e. h k (ground arith) in
    ground (arith, h s.dataset_shard_id, eq_iff s.dataset_shard_id s.dataset_shard_id)

module _ (stable_id : String → List String → String) (str_leb : String → String → Bool)
    (x : String) where
  abbrev slices_held : List Slice → ℕ
  slices_held slices = sum_by (λ (i : Slice). held x i.sources) slices

  held-as_slices :
      (id : String) (index : ℕ) (runs : List (List Source))
      → slices_held (as_slices stable_id str_leb id index runs) ≡ held x (flatten runs)
  unfolding as_slices flatten
  held-as_slices id index [] = refl
  held-as_slices id index (run ∷ runs) =
      omega (arith, held-append x run (flatten runs), held-as_slices id (suc index) runs)

  held-shard_sources :
      (sources : List Source) (id : String)
      → held x (shard_sources stable_id str_leb sources id)
        ≡ held x (keep (λ t. str_eq t.dataset_shard_id id) sources)
  unfolding shard_sources
  held-shard_sources sources id =
      held-sort (λ a b. str_leb (name_of stable_id str_leb a) (name_of stable_id str_leb b)) x
        (keep (λ t. str_eq t.dataset_shard_id id) sources)

  held-slices_of :
      (limits : Weight) (sources : List Source) (ids : List String)
      → slices_held (slices_of stable_id str_leb limits sources ids)
        ≡ sum_by (λ id. held x (keep (λ t. str_eq t.dataset_shard_id id) sources)) ids
  unfolding slices_of
  held-slices_of limits sources [] = refl
  held-slices_of limits sources (id ∷ ids) =
      let runs = split_runs source_weight limits (shard_sources stable_id str_leb sources id) in
      let here =
        held-as_slices id 0 runs
        ∙ ap (held x)
            (flatten-split_runs source_weight limits (shard_sources stable_id str_leb sources id))
        ∙ held-shard_sources sources id in
      omega (
        arith,
        here,
        sum_by-append (λ (i : Slice). held x i.sources) (as_slices stable_id str_leb id 0 runs)
            (slices_of stable_id str_leb limits sources ids),
        held-slices_of limits sources ids,
      )

  held-new_slices :
      (limits : Weight) (sources : List Source)
      → slices_held (new_slices stable_id str_leb limits sources) ≡ held x sources
  unfolding new_slices
  held-new_slices limits sources =
      let shards = union [] (shards_of sources) in
      let ids = sort str_leb shards in
      sum_by-sort (slice_before stable_id str_leb) (λ (i : Slice). held x i.sources)
        (slices_of stable_id str_leb limits sources ids)
      ∙ held-slices_of limits sources ids
      ∙ held-shards x ids sources
          (unique-sort str_leb shards ∙ unique-union [] (shards_of sources) refl)
          (all_shards sources ids
            λ k e. contains-sort str_leb k shards ∙ contains-union k [] (shards_of sources) ∙ e)

  pub held-sources :
      (slices : List Slice)
      → held x (flatten (map (λ (i : Slice). i.sources) slices)) ≡ slices_held slices
  unfolding flatten
  held-sources [] = refl
  held-sources (i ∷ slices) = omega (
    arith,
    held-append x i.sources (flatten (map (λ (j : Slice). j.sources) slices)),
    held-sources slices,
  )

  held-cohorts :
      (runs : List (List Slice))
      → sum_by (λ (c : Cohort). count x c.source_paths) (map (as_cohort stable_id str_leb) runs)
        ≡ slices_held (flatten runs)
  unfolding flatten
  held-cohorts [] = refl
  held-cohorts (run ∷ runs) = omega (
    arith,
    held-sources run,
    held-cohorts runs,
    sum_by-append (λ (i : Slice). held x i.sources) run (flatten runs),
  )

  pub held-new_cohorts :
      (limits : Weight) (sources : List Source)
      → sum_by
          (λ (c : Cohort). count x c.source_paths)
          (new_cohorts stable_id str_leb limits sources)
        ≡ held x sources
  unfolding new_cohorts
  held-new_cohorts limits sources =
      let slices = new_slices stable_id str_leb limits sources in
      held-cohorts (split_runs (λ (i : Slice). i.weight) limits slices)
      ∙ ap slices_held (flatten-split_runs (λ (i : Slice). i.weight) limits slices)
      ∙ held-new_slices limits sources
