-- ===== src/Core/PipelineDag/Fuel.antt =====
-- The steps that `_ancestors` of src/smoking_data/core/pipeline_dag.py takes.
use smoking_data.Prelude.{
  ℕ, zero, suc, ◌+◌, ◌≤◌, ◌≡◌, refl, String, true, false, some, List, [], ◌∷◌, ◌++◌, arith,
  Bool-cases, inl, inr, eq_iff, str_eq, if◌then◌else◌, length, length-append, sum_by,
}
use smoking_data.Prelude.Names.{contains}
use smoking_data.Core.PipelineDag.{ancestors_loop}

module _ (deps : String → List String) (keys : List String) where
  -- The edges of the operations that are not found yet.
  abbrev pub edges_left : List String → List String → ℕ
  edges_left result ks = sum_by (λ k. if contains k result then 0 else length (deps k)) ks

  edges_left_le :
      (current : String) (result ks : List String)
      → edges_left (current ∷ result) ks ≤ edges_left result ks
  edges_left_le current result [] = omega arith
  edges_left_le current result (k ∷ ks) = ground (arith, edges_left_le current result ks)

  edges_left-found :
      (current : String) (result ks : List String)
      → contains current result ≡ false
      → contains current ks ≡ true
      → length (deps current) + edges_left (current ∷ result) ks ≤ edges_left result ks
  edges_left-found current result [] h k = cc
  edges_left-found current result (x ∷ ks) h k = elim (Bool-cases (str_eq current x)) [
    | inl here ↦ ground (arith, edges_left_le current result ks, eq_iff current x, eq_iff x current)
    | inr there ↦ ground (
      arith,
      edges_left-found current result ks,
      edges_left_le current result ks,
      eq_iff x current,
      eq_iff current x,
    )
  ]

  pub ancestors_loop-ends :
      (fuel : ℕ) (pending result : List String)
      → ((x : String) → contains x keys ≡ false → deps x ≡ [])
      → length pending + edges_left result keys ≤ fuel
      → (out : List String) × (ancestors_loop deps fuel pending result ≡ some out)
  unfolding ancestors_loop
  ancestors_loop-ends fuel [] result closed h = (result, refl)
  ancestors_loop-ends zero (current ∷ pending) result closed h = absurd (omega (arith, h))
  ancestors_loop-ends (suc fuel) (current ∷ pending) result closed h =
      elim (Bool-cases (contains current result)) [
        | inl old ↦ rw old (ancestors_loop-ends fuel pending result closed (omega (arith, h)))
        | inr new ↦ rw new (
            ancestors_loop-ends fuel (deps current ++ pending) (current ∷ result) closed
              (elim (Bool-cases (contains current keys)) [
                | inl inside ↦ omega (
                  arith,
                  h,
                  edges_left-found current result keys new inside,
                  length-append (deps current) pending,
                )
                | inr outside ↦
                    let none_left = closed current outside in
                    let size : length (deps current) ≡ 0 = rw none_left refl in
                    omega (
                      arith,
                      h,
                      size,
                      edges_left_le current result keys,
                      length-append (deps current) pending,
                    )
              ]))
      ]
