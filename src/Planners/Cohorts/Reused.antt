-- ===== src/Planners/Cohorts/Reused.antt =====
-- The reused cohorts hold each assigned path once.
use smoking_data.Prelude.{
  ◌≡◌, refl, sym, ap, ◌∙◌, String, Bool, true, false, not, ◌&&◌, ◌||◌, Option, none, some, List, [],
  ◌∷◌, ◌++◌, map, arith, str_eq, eq_iff, sum_by, sum_by-append, if◌then◌else◌, any, All, Bool-cases,
  Option-cases, inl, inr, is_empty, if-elim,
}
use smoking_data.Prelude.Names.{contains, unique, union}
use smoking_data.Prelude.Names.Laws.{contains-union}
use smoking_data.Planners.Cohorts.{
  Source, Slice, Cohort, Weight, PreviousSlice, PreviousPlan, paths_of, source_by_path, members,
  previous_paths,
}
use smoking_data.Planners.Cohorts.Plan.{
  Reuse, as_cohort, reconstructed, reuse_cohort, reuse_cohorts, nothing_reused, reused, same_limits,
}
use smoking_data.Planners.Cohorts.Counts.{count, held, count-append, count-unique}
use smoking_data.Planners.Cohorts.Shards.{held-sources}

source_by_path-path :
    (path : String) (sources : List Source) (s : Source)
    → source_by_path path sources ≡ some s
    → s.path ≡ path
unfolding source_by_path
source_by_path-path path [] s h = cc
source_by_path-path path (t ∷ sources) s h = elim (Option-cases (source_by_path path sources)) [
  | inr (later, e) ↦
      let e' : later ≡ s = cc (rw e at h) in source_by_path-path path sources s (e ∙ ap some e')
  | inl e ↦ elim (Bool-cases (str_eq t.path path)) [
    | inl here ↦
        let e' : t ≡ s = cc (rw (e, here) at h) in
        ap (λ (q : Source). q.path) (sym e') ∙ (eq_iff t.path path).0 here
    | inr there ↦ absurd (cc (rw (e, there) at h))
  ]
]

source_by_path-none :
    (path : String) (sources : List Source)
    → source_by_path path sources ≡ none
    → contains path (paths_of sources) ≡ false
unfolding source_by_path
source_by_path-none path [] h = refl
source_by_path-none path (t ∷ sources) h =
    ground (arith, source_by_path-none path sources, eq_iff path t.path)

-- The sources of known paths have these paths.
paths_of-members :
    (sources : List Source) (paths : List String)
    → any (λ path. not (contains path (paths_of sources))) paths ≡ false
    → paths_of (members sources paths) ≡ paths
unfolding members
paths_of-members sources [] h = refl
paths_of-members sources (path ∷ paths) h = elim (Option-cases (source_by_path path sources)) [
  | inl e ↦ absurd (ground (arith, source_by_path-none path sources e))
  | inr (s, e) ↦
      let rest = paths_of-members sources paths (ground arith) in
      let here = source_by_path-path path sources s e in ground (arith, rest, here)
]

any-append : (p : String → Bool) (xs ys : List String) → any p (xs ++ ys) ≡ (any p xs || any p ys)
any-append p [] ys = refl
any-append p (x ∷ xs) ys = ground (arith, any-append p xs ys)

none_of :
    (p : String → Bool) (x : String) (xs : List String)
    → any p xs ≡ false
    → contains x xs ≡ true
    → p x ≡ false
none_of p x [] h k = cc
none_of p x (y ∷ xs) h k = ground (arith, none_of p x xs, eq_iff x y)

any_weaken :
    (p q : String → Bool) (xs : List String) → any (λ y. p y || q y) xs ≡ false → any p xs ≡ false
any_weaken p q [] h = refl
any_weaken p q (x ∷ xs) h = ground (arith, any_weaken p q xs)

-- No cohort of the previous plan names a source twice.
unfoldable pub IsPlan : Option PreviousPlan → Type 0
IsPlan none = Unit
IsPlan (some plan) = All (λ items. unique (previous_paths items) ≡ true) plan.cohorts

module _ (stable_id : String → List String → String) (str_leb : String → String → Bool)
    (sources : List Source) where
  held-reconstructed :
      (x : String) (items : List PreviousSlice)
      → any (λ path. not (contains path (paths_of sources))) (previous_paths items) ≡ false
      → sum_by
          (λ (i : Slice). held x i.sources)
          (map (reconstructed stable_id str_leb sources) items)
        ≡ count x (previous_paths items)
  unfolding previous_paths
  held-reconstructed x [] h = refl
  held-reconstructed x (item ∷ items) h =
      let parts =
        any-append (λ path. not (contains path (paths_of sources))) item.paths
          (previous_paths items) in
      let here = ap (count x) (paths_of-members sources item.paths (ground arith)) in
      omega (
        arith,
        here,
        count-append x item.paths (previous_paths items),
        held-reconstructed x items (ground arith),
      )

  -- Each assigned path is that of a source and stands in the reused cohorts once, and no other one does.
  pub record IsReuse (r : Reuse) : Type 0 where
    pub counted :
        (x : String)
        → sum_by (λ (c : Cohort). count x c.source_paths) r.cohorts
          ≡ (if contains x r.assigned then 1 else 0)
    pub known : (x : String) → contains x r.assigned ≡ true → contains x (paths_of sources) ≡ true

  taken-IsReuse :
      (items : List PreviousSlice) (r : Reuse)
      → unique (previous_paths items) ≡ true
      → any
          (λ path. not (contains path (paths_of sources)) || contains path r.assigned)
          (previous_paths items)
        ≡ false
      → IsReuse r
      → IsReuse (record {
        cohorts =
            r.cohorts
            ++ as_cohort stable_id str_leb (map (reconstructed stable_id str_leb sources) items)
              ∷ [];
        assigned = union r.assigned (previous_paths items);
      })
  taken-IsReuse items r u free h =
      let paths = previous_paths items in
      let slices = map (reconstructed stable_id str_leb sources) items in
      let present =
        any_weaken (λ path. not (contains path (paths_of sources)))
          (λ path. contains path r.assigned) paths free in
      let each = λ (x : String).
        none_of (λ path. not (contains path (paths_of sources)) || contains path r.assigned) x paths
          free in
      record {
        counted = λ (x : String).
            let added =
              held-sources stable_id str_leb x slices ∙ held-reconstructed x items present in
            let sums =
              sum_by-append (λ (c : Cohort). count x c.source_paths) r.cohorts
                (as_cohort stable_id str_leb slices ∷ []) in
            ground (
              arith,
              added,
              sums,
              h.counted x,
              count-unique x paths u,
              contains-union x r.assigned paths,
              each x,
            );
        known = λ x k. ground (arith, h.known x, contains-union x r.assigned paths, each x);
      }

  reuse_cohort-IsReuse :
      (items : List PreviousSlice) (r : Reuse)
      → unique (previous_paths items) ≡ true
      → IsReuse r
      → IsReuse (reuse_cohort stable_id str_leb sources items r)
  unfolding reuse_cohort
  reuse_cohort-IsReuse items r u h =
      elim (Bool-cases (
        is_empty (previous_paths items)
        || any (λ path. not (contains path (paths_of sources)) || contains path r.assigned)
            (previous_paths items))) [
              | inl stays ↦ rw stays h
              | inr free ↦ rw free (taken-IsReuse items r u (ground arith) h)
            ]

  reuse_cohorts-IsReuse :
      (cohorts : List (List PreviousSlice)) (r : Reuse)
      → All (λ items. unique (previous_paths items) ≡ true) cohorts
      → IsReuse r
      → IsReuse (reuse_cohorts stable_id str_leb sources cohorts r)
  unfolding reuse_cohorts
  reuse_cohorts-IsReuse [] r u h = h
  reuse_cohorts-IsReuse (items ∷ cohorts) r u h =
      reuse_cohorts-IsReuse cohorts (reuse_cohort stable_id str_leb sources items r) u.1
        (reuse_cohort-IsReuse items r u.0 h)

  nothing-IsReuse : IsReuse (nothing_reused stable_id str_leb)
  nothing-IsReuse = record { counted = λ x. refl; known = λ x k. cc }

  pub reused-IsReuse :
      (limits : Weight) (previous_plan : Option PreviousPlan)
      → IsPlan previous_plan
      → IsReuse (reused stable_id str_leb sources limits previous_plan)
  unfolding reused IsPlan
  reused-IsReuse limits none h = nothing-IsReuse
  reused-IsReuse limits (some plan) h =
      if-elim IsReuse
        (str_eq plan.schema_version "smoking-data.0201-planning-cohorts.v1"
          && same_limits plan.limits limits)
        (reuse_cohorts stable_id str_leb sources plan.cohorts (nothing_reused stable_id str_leb))
        (nothing_reused stable_id str_leb)
        (reuse_cohorts-IsReuse plan.cohorts (nothing_reused stable_id str_leb) h nothing-IsReuse)
        nothing-IsReuse
