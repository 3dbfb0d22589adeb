-- ===== src/Graph/Round.antt =====
-- A round of the topological sort keeps what holds of its lists.
use text.Mathlib.TextPositions.{eq_refl}
use smoking_data.Prelude.{
  ℕ, ◌≡◌, refl, String, true, false, ◌&&◌, ◌||◌, List, [], ◌∷◌, ◌++◌, arith, is_empty, eq_iff,
}
use smoking_data.Prelude.Names.{contains, remove_name, diff}
use smoking_data.Prelude.Names.Laws.{
  is_empty-remove_name, is_empty-diff, contains-append, contains-sort, diff-snoc, unique-snoc,
}
use smoking_data.Prelude.Sort.{sort}
use smoking_data.Graph.Invariant.{
  visit_all-remaining, visit_all-ready, visit_all-unique, IsOrdered-snoc, Invariant,
}
use smoking_data.Graph.{ReadyQueue, Sweep, by_position, visit_all}

module _ (q : ReadyQueue) (keys : List String) (position : String → ℕ) (deps : String → List String)
    (remaining : String → List String) (current : String) (rest result : List String)
    (inv : Invariant q keys position deps remaining (current ∷ rest) result) where
  abbrev pub swept : Sweep
  swept =
      visit_all q current (result ++ current ∷ []) (record { remaining = remaining; ready = rest })
        (sort (by_position position) keys)

  abbrev pub start : Sweep
  start = record { remaining = remaining; ready = rest }

  current-ready : (contains current keys ≡ true) × (is_empty (remaining current) ≡ true)
  current-ready = ground (arith, inv.placed current, eq_refl current)

  swept-remaining :
      (x : String) → contains x keys ≡ true → swept.remaining x ≡ remove_name current (remaining x)
  swept-remaining x h = ground (
    arith,
    visit_all-remaining q current (result ++ current ∷ []) start (sort (by_position position) keys)
        x,
    contains-sort (by_position position) x keys,
  )

  swept-left :
      (x : String)
      → contains x keys ≡ true
      → swept.remaining x ≡ diff (deps x) (result ++ current ∷ [])
  swept-left x h = rw (swept-remaining x h, diff-snoc, inv.left x h) refl

  swept-placed :
      (x : String)
      → (contains x (result ++ current ∷ []) || contains x (q.settle swept.ready))
        ≡ (contains x keys && is_empty (swept.remaining x))
  swept-placed x = ground (
    arith,
    inv.placed x,
    inv.disjoint x,
    current-ready,
    contains-append x result (current ∷ []),
    q.contains-settle x swept.ready,
    visit_all-ready q current (result ++ current ∷ []) start (sort (by_position position) keys) x,
    contains-sort (by_position position) x keys,
    swept-remaining x,
    is_empty-remove_name current (remaining x),
    eq_iff x current,
  )

  swept-disjoint :
      (x : String)
      → contains x (q.settle swept.ready) ≡ true
      → contains x (result ++ current ∷ []) ≡ false
  swept-disjoint x h = ground (
    arith,
    inv.disjoint x,
    inv.distinct,
    contains-append x result (current ∷ []),
    q.contains-settle x swept.ready,
    visit_all-ready q current (result ++ current ∷ []) start (sort (by_position position) keys) x,
    eq_iff x current,
  )

  pub round-Invariant :
      Invariant q keys position deps swept.remaining (q.settle swept.ready) (result ++ current ∷ [])
  round-Invariant = record {
    left = swept-left;
    placed = swept-placed;
    disjoint = swept-disjoint;
    distinct = (
      ground
          (arith, unique-snoc result current, inv.distinct, inv.disjoint current, eq_refl current),
      rw q.unique-settle (
          visit_all-unique q current (result ++ current ∷ []) start
            (sort (by_position position) keys) (ground (arith, inv.distinct))),
    );
    ordered =
        IsOrdered-snoc deps [] result current inv.ordered
          (ground (arith, is_empty-diff (deps current) result, inv.left current, current-ready));
  }
