-- ===== src/Planners/Cohorts/Examples.antt =====
-- Four files in three shards, one of them reused.
use Prim.Native.Nat.{Ordering}
use Prim.Native.String.{compare}
use smoking_data.Prelude.{
  ℕ, ◌≡◌, refl, String, ◌<>◌, Bool, true, false, List, [], ◌∷◌, Option, some, map, All, sum_by,
  drop, flatten,
}
use smoking_data.Planners.Cohorts.{
  Source, Cohort, Weight, PreviousPlan, CohortPlan, paths_of, sum_weights,
}
use smoking_data.Planners.Cohorts.Plan.{build_planning_cohorts}
use smoking_data.Planners.Cohorts.Counts.{count}
use smoking_data.Planners.Cohorts.Reused.{IsPlan}
use smoking_data.Planners.Cohorts.Partition.{build_planning_cohorts-count}
use smoking_data.Planners.Cohorts.Bounds.{IsCohort, build_planning_cohorts-IsCohort}

abbrev file : String → String → ℕ → Source
file path shard rows = record {
  path = path;
  relative_path = "";
  dataset_shard_id = shard;
  rows = rows;
  size_bytes = 10;
  row_groups = 0;
  candidate_path = path <> ".candidate";
  occupancy_path = path <> ".occupancy";
}

abbrev files : List Source
files =
    file "a1" "a" 60
    ∷ file "b1" "b" 30
    ∷ file "a2" "a" 50
    ∷ file "c1" "c" 500
    ∷ file "b2" "b" 20
    ∷ []

abbrev targets : Weight
targets = record { rows = 100; bytes = 1000; files = 10; row_groups = 10 }

abbrev previous : Option PreviousPlan
previous = some (record {
  schema_version = "smoking-data.0201-planning-cohorts.v1";
  limits = targets;
  cohorts =
      (record { slice_id = "s"; dataset_shard_id = "b"; slice_index = 0; paths = "b1" ∷ [] } ∷ [])
      ∷ (record { slice_id = "t"; dataset_shard_id = "d"; slice_index = 0; paths = "d1" ∷ [] } ∷ [])
      ∷ [];
})

abbrev stable_id : String → List String → String
stable_id prefix values = prefix

abbrev str_leb : String → String → Bool
str_leb a b = elim (compare a b) [ Ordering.gt ↦ false | _ ↦ true ]

abbrev plan : CohortPlan
plan = build_planning_cohorts stable_id str_leb files targets previous

program : Unit {0}
unfolding build_planning_cohorts flatten sum_weights
program = tt

plan-paths :
    map (λ (c : Cohort). c.source_paths) plan.cohorts
    ≡ ("b1" ∷ []) ∷ ("a1" ∷ []) ∷ ("a2" ∷ "b2" ∷ []) ∷ ("c1" ∷ []) ∷ []
unfolding program
plan-paths = refl

previous-IsPlan : IsPlan previous
unfolding IsPlan program
previous-IsPlan = (refl, (refl, tt))

build_planning_cohorts-count_example :
    sum_by (λ (c : Cohort). count "b1" c.source_paths) plan.cohorts ≡ count "b1" (paths_of files)
build_planning_cohorts-count_example =
    build_planning_cohorts-count stable_id str_leb files targets previous refl previous-IsPlan "b1"

build_planning_cohorts-IsCohort_example :
    All (IsCohort plan.limits) (drop plan.reused_cohort_memberships plan.cohorts)
build_planning_cohorts-IsCohort_example =
    build_planning_cohorts-IsCohort stable_id str_leb files targets previous plan refl
