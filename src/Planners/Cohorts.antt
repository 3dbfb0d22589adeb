-- ===== src/Planners/Cohorts.antt =====
-- `build_planning_cohorts` of src/smoking_data/planners/dataset_shard.py: source files are cut into slices
-- of one dataset shard each, and slices joined to cohorts, both up to limits. The digest `_stable_id` and
-- the order of strings are parameters.
pub mod Plan
pub mod Runs
pub mod Counts
pub mod Shards
pub mod Reused
pub mod Partition
pub mod Bounds
mod Examples
use smoking_data.Prelude.{
  ℕ, zero, suc, ◌+◌, ◌-◌, max, String, Bool, true, false, not, ◌&&◌, ◌||◌, Option, none, some, List,
  [], ◌∷◌, ◌++◌, map, flatten, if◌then◌else◌, str_eq, ltb, leb, ◌==◌, is_empty, all, any, keep,
  length, sum_by,
}
use smoking_data.Prelude.Names.{contains, union}
use smoking_data.Prelude.Sort.{sort}

-- A source file; a number that is missing is 0, and a missing relative path empty.
pub record Source : Type 0 where
  pub path : String
  pub relative_path : String
  pub dataset_shard_id : String
  pub rows : ℕ
  pub size_bytes : ℕ
  pub row_groups : ℕ
  pub candidate_path : String
  pub occupancy_path : String

pub record Weight : Type 0 where
  pub rows : ℕ
  pub bytes : ℕ
  pub files : ℕ
  pub row_groups : ℕ

pub record Slice : Type 0 where
  pub slice_id : String
  pub dataset_shard_id : String
  pub slice_index : ℕ
  pub sources : List Source
  pub weight : Weight

pub record Cohort : Type 0 where
  pub cohort_id : String
  pub slices : List Slice
  pub source_paths : List String
  pub candidate_paths : List String
  pub occupancy_paths : List String
  pub weight : Weight

-- What is read of a previous plan: of each slice of a cohort its ids, its index and its sources' paths.
pub record PreviousSlice : Type 0 where
  pub slice_id : String
  pub dataset_shard_id : String
  pub slice_index : ℕ
  pub paths : List String

pub record PreviousPlan : Type 0 where
  pub schema_version : String
  pub limits : Weight
  pub cohorts : List (List PreviousSlice)

pub record CohortPlan : Type 0 where
  pub limits : Weight
  pub dataset_shards : ℕ
  pub dataset_slices : ℕ
  pub planning_cohorts : ℕ
  pub split_dataset_shards : ℕ
  pub merged_small_dataset_shards : ℕ
  pub oversized_source_files : ℕ
  pub reused_cohort_memberships : ℕ
  pub cohorts : List Cohort

abbrev pub empty_weight : Weight
empty_weight = record { rows = 0; bytes = 0; files = 0; row_groups = 0 }

abbrev pub add_weight : Weight → Weight → Weight
add_weight a b = record {
  rows = a.rows + b.rows;
  bytes = a.bytes + b.bytes;
  files = a.files + b.files;
  row_groups = a.row_groups + b.row_groups;
}

unfoldable pub is_oversized : Weight → Weight → Bool
is_oversized weight limits =
    ltb limits.rows weight.rows
    || ltb limits.bytes weight.bytes
    || ltb limits.files weight.files
    || ltb limits.row_groups weight.row_groups

abbrev pub would_exceed : Weight → Weight → Weight → Bool
would_exceed current addition limits = is_oversized (add_weight current addition) limits

abbrev pub source_weight : Source → Weight
source_weight s = record {
  rows = s.rows;
  bytes = s.size_bytes;
  files = 1;
  row_groups = max 1 s.row_groups;
}

unfoldable pub sum_weights {ℓ} : {A : Type ℓ} → (A → Weight) → Weight → List A → Weight
sum_weights weight total [] = total
sum_weights weight total (x ∷ xs) = sum_weights weight (add_weight total (weight x)) xs

abbrev pub sum_source_weights : List Source → Weight
sum_source_weights sources = sum_weights source_weight empty_weight sources

-- The loop over the sources of a shard, and the loop over the slices: `closed` are the runs that were
-- appended, `current` and `totals` the run that is open.
module _ {A : Type 0} (weight : A → Weight) (limits : Weight) where
  pub record OpenRuns : Type 0 where
    pub closed : List (List A)
    pub current : List A
    pub totals : Weight

  abbrev pub close_run : OpenRuns → OpenRuns
  close_run r = record { closed = r.closed ++ r.current ∷ []; current = []; totals = empty_weight }

  abbrev pub add_item : A → OpenRuns → OpenRuns
  add_item x r = record r { current = r.current ++ x ∷ []; totals = add_weight r.totals (weight x) }

  unfoldable pub make_room : A → OpenRuns → OpenRuns
  unfolding is_oversized
  make_room x r =
      if not (is_empty r.current) && would_exceed r.totals (weight x) limits then close_run r else r

  unfoldable pub run_step : A → OpenRuns → OpenRuns
  unfolding make_room
  run_step x r =
      let added = add_item x (make_room x r) in
      if is_oversized (weight x) limits then close_run added else added

  unfoldable pub run_loop : List A → OpenRuns → OpenRuns
  unfolding run_step
  run_loop [] r = r
  run_loop (x ∷ xs) r = run_loop xs (run_step x r)

  abbrev pub last_run : OpenRuns → List (List A)
  last_run r = if is_empty r.current then r.closed else r.closed ++ r.current ∷ []

  unfoldable pub split_runs : List A → List (List A)
  unfolding run_loop
  split_runs xs =
      last_run (run_loop xs (record { closed = []; current = []; totals = empty_weight }))

abbrev pub paths_of : List Source → List String
paths_of sources = map (λ (s : Source). s.path) sources

abbrev pub shards_of : List Source → List String
shards_of sources = map (λ (s : Source). s.dataset_shard_id) sources

-- `source_by_path[path]`: of two sources with one path the later one.
unfoldable pub source_by_path : String → List Source → Option Source
source_by_path path [] = none
source_by_path path (s ∷ sources) = elim (source_by_path path sources) [
  | some later ↦ some later
  | none ↦ if str_eq s.path path then some s else none
]

-- The sources of the paths, each of which is known.
unfoldable pub members : List Source → List String → List Source
unfolding source_by_path
members sources [] = []
members sources (path ∷ paths) =
    let rest = members sources paths in
    elim (source_by_path path sources) [ none ↦ rest | some s ↦ s ∷ rest ]

unfoldable pub previous_paths : List PreviousSlice → List String
previous_paths [] = []
previous_paths (item ∷ items) = item.paths ++ previous_paths items
