-- ===== src/Planners/Cohorts/Partition.antt =====
-- The cohorts of a plan divide the sources, and the new cohorts are within the limits.
use smoking_data.Prelude.{◌≡◌, String, Bool, true, Option, List, ◌++◌, arith, sum_by, sum_by-append}
use smoking_data.Prelude.Names.{unique}
use smoking_data.Planners.Cohorts.{Source, Cohort, Weight, PreviousPlan, paths_of}
use smoking_data.Planners.Cohorts.Plan.{
  Reuse, reused, open_sources, new_cohorts, build_planning_cohorts, at_least_one,
}
use smoking_data.Planners.Cohorts.Counts.{count, held, count-unique, held-keep}
use smoking_data.Planners.Cohorts.Shards.{held-new_cohorts}
use smoking_data.Planners.Cohorts.Reused.{IsReuse, IsPlan, reused-IsReuse}

module _ (stable_id : String → List String → String) (str_leb : String → String → Bool) where
  divided :
      (sources : List Source) (limits : Weight) (old : Reuse) (x : String)
      → unique (paths_of sources) ≡ true
      → IsReuse stable_id str_leb sources old
      → sum_by
          (λ (c : Cohort). count x c.source_paths)
          (old.cohorts
            ++ new_cohorts stable_id str_leb limits
                (open_sources stable_id str_leb sources old.assigned))
        ≡ held x sources
  divided sources limits old x u h =
      let rest = open_sources stable_id str_leb sources old.assigned in
      ground (
        arith,
        sum_by-append (λ (c : Cohort). count x c.source_paths) old.cohorts
            (new_cohorts stable_id str_leb limits rest),
        held-new_cohorts stable_id str_leb x limits rest,
        held-keep x old.assigned sources,
        h.counted x,
        h.known x,
        count-unique x (paths_of sources) u,
      )

  -- Where no path stands twice among the sources, nor within one cohort of the previous plan, each path
  -- stands in the cohorts of the plan as often as among the sources: every source is in exactly one
  -- cohort, and nothing else is.
  pub build_planning_cohorts-count :
      (sources : List Source) (targets : Weight) (previous_plan : Option PreviousPlan)
      → unique (paths_of sources) ≡ true
      → IsPlan previous_plan
      → (x : String)
      → sum_by
          (λ (c : Cohort). count x c.source_paths)
          (build_planning_cohorts stable_id str_leb sources targets previous_plan).cohorts
        ≡ count x (paths_of sources)
  unfolding build_planning_cohorts
  build_planning_cohorts-count sources targets previous_plan u h x =
      let limits = at_least_one targets in
      divided sources limits (reused stable_id str_leb sources limits previous_plan) x u
        (reused-IsReuse stable_id str_leb sources limits previous_plan h)
