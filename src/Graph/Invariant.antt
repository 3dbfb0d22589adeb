-- ===== src/Graph/Invariant.antt =====
-- What holds of the lists of a topological sort between two rounds.
use text.Mathlib.TextPositions.{eq_refl}
use smoking_data.Prelude.{
  ℕ, ◌≡◌, refl, String, Bool, true, false, not, ◌&&◌, ◌||◌, List, [], ◌∷◌, ◌++◌, arith, is_empty,
  keep, all, append_assoc, append-nil, if◌then◌else◌, str_eq, eq_iff,
}
use smoking_data.Prelude.Names.{contains, remove_name, diff, unique}
use smoking_data.Prelude.Names.Laws.{
  remove_name-remove_name, contains-sort, unique-sort, contains-remove_name, remove_name_absent,
  diff-nil, contains-keep, unique-keep,
}
use smoking_data.Prelude.Sort.{sort}
use smoking_data.Graph.{ReadyQueue, Sweep, by_position, visit, visit_all}

module _ (q : ReadyQueue) (current : String) (result : List String) where
  visit-remaining :
      (s : Sweep) (c x : String)
      → (visit q current result s c).remaining x
        ≡ (if str_eq c x then remove_name current (s.remaining x) else s.remaining x)
  unfolding visit
  visit-remaining s c x = ground (arith, eq_iff c x, remove_name_absent current (s.remaining c))

  -- The visit makes a node ready if its last dependency is `current`.
  abbrev pub gets_ready : Sweep → String → Bool
  gets_ready s x =
      contains current (s.remaining x)
      && is_empty (remove_name current (s.remaining x))
      && not (contains x result)

  visit-ready :
      (s : Sweep) (c x : String)
      → contains x (visit q current result s c).ready
        ≡ (contains x s.ready || (str_eq c x && gets_ready s x))
  unfolding visit
  visit-ready s c x = ground (arith, eq_iff c x, eq_iff x c, q.contains-push x s.ready c)

  visit-unique :
      (s : Sweep) (c : String)
      → unique s.ready ≡ true
      → unique (visit q current result s c).ready ≡ true
  unfolding visit
  visit-unique s c u = ground (arith, q.unique-push s.ready c)

  pub visit_all-remaining :
      (s : Sweep) (cs : List String) (x : String)
      → (visit_all q current result s cs).remaining x
        ≡ (if contains x cs then remove_name current (s.remaining x) else s.remaining x)
  unfolding visit_all
  visit_all-remaining s [] x = refl
  visit_all-remaining s (c ∷ cs) x = ground (
    arith,
    visit_all-remaining (visit q current result s c) cs x,
    visit-remaining s c x,
    remove_name-remove_name current (s.remaining x),
    eq_iff c x,
    eq_iff x c,
  )

  pub visit_all-ready :
      (s : Sweep) (cs : List String) (x : String)
      → contains x (visit_all q current result s cs).ready
        ≡ (contains x s.ready || (contains x cs && gets_ready s x))
  unfolding visit_all
  visit_all-ready s [] x = ground arith
  visit_all-ready s (c ∷ cs) x = ground (
    arith,
    visit_all-ready (visit q current result s c) cs x,
    visit-remaining s c x,
    visit-ready s c x,
    contains-remove_name current current (s.remaining x),
    eq_refl current,
    eq_iff c x,
    eq_iff x c,
  )

  pub visit_all-unique :
      (s : Sweep) (cs : List String)
      → unique s.ready ≡ true
      → unique (visit_all q current result s cs).ready ≡ true
  unfolding visit_all
  visit_all-unique s [] u = u
  visit_all-unique s (c ∷ cs) u =
      visit_all-unique (visit q current result s c) cs (visit-unique s c u)

-- Every node stands behind all of its dependencies, `seen` being placed already.
abbrev pub IsOrdered : (String → List String) → List String → List String → Type 0
IsOrdered deps seen [] = Unit
IsOrdered deps seen (x ∷ xs) =
    (all (λ d. contains d seen) (deps x) ≡ true) × IsOrdered deps (seen ++ x ∷ []) xs

pub IsOrdered-snoc :
    (deps : String → List String) (seen xs : List String) (c : String)
    → IsOrdered deps seen xs
    → all (λ d. contains d (seen ++ xs)) (deps c) ≡ true
    → IsOrdered deps seen (xs ++ c ∷ [])
IsOrdered-snoc deps seen [] c h e = (rw append-nil at e, tt)
IsOrdered-snoc deps seen (x ∷ xs) c h e =
    (h.0, IsOrdered-snoc deps (seen ++ x ∷ []) xs c h.1 (rw append_assoc e))

module _ (q : ReadyQueue) (keys : List String) (position : String → ℕ)
    (deps : String → List String) where
  pub record Invariant (remaining : String → List String) (ready result : List String)
      : Type 0 where
    pub left : (x : String) → contains x keys ≡ true → remaining x ≡ diff (deps x) result
    pub placed :
        (x : String)
        → (contains x result || contains x ready) ≡ (contains x keys && is_empty (remaining x))
    pub disjoint : (x : String) → contains x ready ≡ true → contains x result ≡ false
    pub distinct : (unique result ≡ true) × (unique ready ≡ true)
    pub ordered : IsOrdered deps [] result

  pub start-Invariant :
      unique keys ≡ true
      → Invariant deps (sort (by_position position) (keep (λ k. is_empty (deps k)) keys)) []
  start-Invariant u = record {
    left = λ x h. rw diff-nil refl;
    placed = λ x. rw (contains-sort, contains-keep (λ k. is_empty (deps k)) x keys) refl;
    disjoint = λ x h. refl;
    distinct = (refl, rw unique-sort (unique-keep (λ k. is_empty (deps k)) keys u));
    ordered = tt;
  }
