-- ===== src/Graph/Place.antt =====
-- The topological sort ends, and what its result says of the graph.
use smoking_data.Prelude.{
  ℕ, zero, suc, ◌+◌, ◌≤◌, ◌<◌, ◌≡◌, refl, inl, inr, String, true, ◌&&◌, some, List, [], ◌∷◌, ◌++◌,
  arith, Bool-cases, length, length-append, all, All, eq_iff,
}
use smoking_data.Prelude.Names.{contains, remove_name, unique}
use smoking_data.Prelude.Names.Laws.{
  contains-remove_name, length-remove_name, length-unique-le, is_empty-diff, All-contains,
}
use smoking_data.Graph.{ReadyQueue, rounds, place}
use smoking_data.Graph.Invariant.{IsOrdered, Invariant, start-Invariant}
use smoking_data.Graph.Round.{round-Invariant}

-- The graph has no cycle: some rank falls from every node to each of its dependencies.
abbrev pub IsRanked : List String → (String → List String) → (String → ℕ) → Type 0
IsRanked keys deps rank =
    All (λ x. All (λ d. (contains d keys ≡ true) × (rank d < rank x)) (deps x)) keys

module _ (q : ReadyQueue) (keys : List String) (position : String → ℕ)
    (deps : String → List String) where
  -- What holds of the nodes that are placed when no node is ready any more.
  pub record IsPlacing (order : List String) : Type 0 where
    pub placed :
        (x : String) → contains x order ≡ (contains x keys && all (λ d. contains d order) (deps x))
    pub distinct : unique order ≡ true
    pub ordered : IsOrdered deps [] order

  result-le_keys :
      {remaining : String → List String} {ready : List String} (result : List String)
      → Invariant q keys position deps remaining ready result
      → length result ≤ length keys
  result-le_keys result inv =
      length-unique-le result keys inv.distinct.0 λ x h. ground (arith, inv.placed x)

  finish-IsPlacing :
      (remaining : String → List String) (result : List String)
      → Invariant q keys position deps remaining [] result
      → IsPlacing result
  finish-IsPlacing remaining result inv = record {
    placed = λ x. ground (arith, inv.placed x, inv.left x, is_empty-diff (deps x) result);
    distinct = inv.distinct.0;
    ordered = inv.ordered;
  }

  rounds-IsPlacing :
      (fuel : ℕ) (remaining : String → List String) (ready result : List String)
      → fuel + length result ≡ suc (length keys)
      → Invariant q keys position deps remaining ready result
      → (order : List String) × (rounds q keys position fuel remaining ready result ≡ some order)
        × IsPlacing order
  unfolding rounds
  rounds-IsPlacing zero remaining ready result e inv =
      absurd (omega (arith, result-le_keys result inv))
  rounds-IsPlacing (suc fuel) remaining [] result e inv =
      (result, refl, finish-IsPlacing remaining result inv)
  rounds-IsPlacing (suc fuel) remaining (c ∷ rest) result e inv =
      rounds-IsPlacing fuel _ _ (result ++ c ∷ []) (omega (arith, length-append result (c ∷ [])))
        (round-Invariant q keys position deps remaining c rest result inv)

  pub place-IsPlacing :
      unique keys ≡ true
      → (order : List String) × (place q keys position deps ≡ some order) × IsPlacing order
  unfolding place
  place-IsPlacing u =
      rounds-IsPlacing (suc (length keys)) deps _ [] (omega arith)
        (start-Invariant q keys position deps u)

  -- As many nodes placed as there are: all of them.
  pub placed-of_length :
      (order : List String) (x : String)
      → IsPlacing order
      → length order ≡ length keys
      → contains x keys ≡ true
      → contains x order ≡ true
  placed-of_length order x p e h = elim (Bool-cases (contains x order)) [
    | inl yes_placed ↦ yes_placed
    | inr absent ↦ absurd (
        omega (
          arith,
          length-remove_name x keys h,
          length-unique-le order (remove_name x keys) p.distinct
              λ y hy. ground (arith, p.placed y, contains-remove_name y x keys, eq_iff x y),
        ))
  ]

  all_deps_placed :
      (rank : String → ℕ) (order : List String) (n : ℕ) (ds : List String)
      → ((y : String) → contains y keys ≡ true → rank y < n → contains y order ≡ true)
      → All (λ d. (contains d keys ≡ true) × (rank d < n)) ds
      → all (λ d. contains d order) ds ≡ true
  all_deps_placed rank order n [] below h = refl
  all_deps_placed rank order n (d ∷ ds) below h =
      ground (arith, below d h.0.0 h.0.1, all_deps_placed rank order n ds below h.1)

  placed-below :
      (rank : String → ℕ) (order : List String)
      → IsRanked keys deps rank
      → IsPlacing order
      → (n : ℕ) (x : String) → contains x keys ≡ true
      → rank x < n
      → contains x order ≡ true
  placed-below rank order r p zero x h lt = absurd (omega arith)
  placed-below rank order r p (suc n) x h lt =
      let deps_placed =
        all_deps_placed rank order (rank x) (deps x)
          (λ y hy ylt. placed-below rank order r p n y hy (omega arith))
          (All-contains (λ y. All (λ d. (contains d keys ≡ true) × (rank d < rank y)) (deps y)) keys
            x r h) in
      ground (arith, p.placed x)

  pub placed-of_ranked :
      (rank : String → ℕ) (order : List String) (x : String)
      → IsRanked keys deps rank
      → IsPlacing order
      → contains x keys ≡ true
      → contains x order ≡ true
  placed-of_ranked rank order x r p h = placed-below rank order r p (suc (rank x)) x h (omega arith)
