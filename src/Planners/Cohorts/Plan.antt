-- ===== src/Planners/Cohorts/Plan.antt =====
-- The parts of `build_planning_cohorts` of src/smoking_data/planners/dataset_shard.py, from the cohorts of the
-- previous plan that stay to the counts of the result.
use smoking_data.Prelude.{
  ℕ, suc, ◌-◌, max, String, Bool, not, ◌&&◌, ◌||◌, Option, none, some, List, [], ◌∷◌, ◌++◌, map,
  flatten, if◌then◌else◌, str_eq, ltb, ◌==◌, is_empty, any, keep, length, sum_by,
}
use smoking_data.Prelude.Names.{contains, union}
use smoking_data.Prelude.Sort.{sort}
use smoking_data.Planners.Cohorts.{
  Source, Weight, Slice, Cohort, PreviousSlice, PreviousPlan, CohortPlan, source_weight,
  sum_source_weights, is_oversized, split_runs, paths_of, shards_of, members, previous_paths,
}

abbrev pub at_least_one : Weight → Weight
at_least_one l = record {
  rows = max 1 l.rows;
  bytes = max 1 l.bytes;
  files = max 1 l.files;
  row_groups = max 1 l.row_groups;
}

abbrev pub same_limits : Weight → Weight → Bool
same_limits a b =
    a.rows == b.rows && a.bytes == b.bytes && a.files == b.files && a.row_groups == b.row_groups

-- The cohorts of the previous plan that stay, and the paths of their sources.
pub record Reuse : Type 0 where
  pub cohorts : List Cohort
  pub assigned : List String

-- `stable_id` is `_stable_id`, `str_leb` the order of strings.
module _ (stable_id : String → List String → String) (str_leb : String → String → Bool) where
  abbrev pub as_cohort : List Slice → Cohort
  as_cohort slices =
      let sources = flatten (map (λ (i : Slice). i.sources) slices) in
      record {
        cohort_id = stable_id "cohort" (map (λ (i : Slice). i.slice_id) slices);
        slices = slices;
        source_paths = paths_of sources;
        candidate_paths = map (λ (s : Source). s.candidate_path) sources;
        occupancy_paths = map (λ (s : Source). s.occupancy_path) sources;
        weight = sum_source_weights sources;
      }

  abbrev pub reconstructed : List Source → PreviousSlice → Slice
  reconstructed sources item =
      let found = members sources item.paths in
      record {
        slice_id = item.slice_id;
        dataset_shard_id = item.dataset_shard_id;
        slice_index = item.slice_index;
        sources = found;
        weight = sum_source_weights found;
      }

  -- A previous cohort stays if it has sources, all of them are there, and none is taken.
  unfoldable pub reuse_cohort : List Source → List PreviousSlice → Reuse → Reuse
  unfolding previous_paths members
  reuse_cohort sources items r =
      let paths = previous_paths items in
      if is_empty paths
        || any (λ path. not (contains path (paths_of sources)) || contains path r.assigned) paths
      then r
      else record {
        cohorts = r.cohorts ++ as_cohort (map (reconstructed sources) items) ∷ [];
        assigned = union r.assigned paths;
      }

  unfoldable pub reuse_cohorts : List Source → List (List PreviousSlice) → Reuse → Reuse
  unfolding reuse_cohort
  reuse_cohorts sources [] r = r
  reuse_cohorts sources (items ∷ cohorts) r =
      reuse_cohorts sources cohorts (reuse_cohort sources items r)

  abbrev pub nothing_reused : Reuse
  nothing_reused = record { cohorts = []; assigned = [] }

  unfoldable pub reused : List Source → Weight → Option PreviousPlan → Reuse
  unfolding reuse_cohorts
  reused sources limits none = nothing_reused
  reused sources limits (some plan) =
      if str_eq plan.schema_version "smoking-data.0201-planning-cohorts.v1"
        && same_limits plan.limits limits
      then reuse_cohorts sources plan.cohorts nothing_reused
      else nothing_reused

  -- `by_shard[shard_id]` in the order of the relative paths.
  abbrev pub name_of : Source → String
  name_of s = if str_eq s.relative_path "" then s.path else s.relative_path

  unfoldable pub shard_sources : List Source → String → List Source
  shard_sources sources shard_id =
      sort (λ a b. str_leb (name_of a) (name_of b))
        (keep (λ s. str_eq s.dataset_shard_id shard_id) sources)

  abbrev pub as_slice : String → ℕ → List Source → Slice
  as_slice shard_id index sources = record {
    slice_id = stable_id "slice" (shard_id ∷ paths_of sources);
    dataset_shard_id = shard_id;
    slice_index = index;
    sources = sources;
    weight = sum_source_weights sources;
  }

  -- `enumerate`
  unfoldable pub as_slices : String → ℕ → List (List Source) → List Slice
  as_slices shard_id index [] = []
  as_slices shard_id index (run ∷ runs) =
      as_slice shard_id index run ∷ as_slices shard_id (suc index) runs

  unfoldable pub slices_of : Weight → List Source → List String → List Slice
  unfolding shard_sources split_runs as_slices
  slices_of limits sources [] = []
  slices_of limits sources (shard_id ∷ shards) =
      as_slices shard_id 0 (split_runs source_weight limits (shard_sources sources shard_id))
      ++ slices_of limits sources shards

  abbrev pub slice_before : Slice → Slice → Bool
  slice_before a b =
      if str_eq a.dataset_shard_id b.dataset_shard_id
      then not (ltb b.slice_index a.slice_index)
      else str_leb a.dataset_shard_id b.dataset_shard_id

  -- The sources that no reused cohort has.
  abbrev pub open_sources : List Source → List String → List Source
  open_sources sources assigned = keep (λ s. not (contains s.path assigned)) sources

  unfoldable pub new_slices : Weight → List Source → List Slice
  unfolding slices_of
  new_slices limits sources =
      sort slice_before (slices_of limits sources (sort str_leb (union [] (shards_of sources))))

  unfoldable pub new_cohorts : Weight → List Source → List Cohort
  unfolding new_slices split_runs
  new_cohorts limits sources =
      map as_cohort (split_runs (λ (i : Slice). i.weight) limits (new_slices limits sources))

  abbrev pub is_split : List Slice → String → Bool
  is_split slices shard_id =
      ltb 1 (length (keep (λ (i : Slice). str_eq i.dataset_shard_id shard_id) slices))

  unfoldable pub build_planning_cohorts : List Source → Weight → Option PreviousPlan → CohortPlan
  unfolding reused new_cohorts is_oversized
  build_planning_cohorts sources targets previous_plan =
      let limits = at_least_one targets in
      let old : Reuse = reused sources limits previous_plan in
      let cohorts = old.cohorts ++ new_cohorts limits (open_sources sources old.assigned) in
      let shards = union [] (shards_of sources) in
      let slices = flatten (map (λ (c : Cohort). c.slices) cohorts) in
      record {
        limits = limits;
        dataset_shards = length shards;
        dataset_slices = length slices;
        planning_cohorts = length cohorts;
        split_dataset_shards = length (keep (is_split slices) shards);
        merged_small_dataset_shards =
            sum_by
              (λ (c : Cohort).
                length (union [] (map (λ (i : Slice). i.dataset_shard_id) c.slices)) - 1)
              cohorts;
        oversized_source_files = length (keep (λ s. is_oversized (source_weight s) limits) sources);
        reused_cohort_memberships = length old.cohorts;
        cohorts = cohorts;
      }
