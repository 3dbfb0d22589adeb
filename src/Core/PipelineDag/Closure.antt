-- ===== src/Core/PipelineDag/Closure.antt =====
-- `_ancestors` of src/smoking_data/core/pipeline_dag.py finds everything that feeds an operation.
use smoking_data.Prelude.{
  ℕ, zero, suc, ◌≡◌, sym, subst, String, true, ◌||◌, some, List, [], ◌∷◌, ◌++◌, arith, Bool-cases,
  inl, inr, eq_iff, str_eq,
}
use smoking_data.Prelude.Names.{contains}
use smoking_data.Prelude.Names.Laws.{contains-append}
use smoking_data.Core.PipelineDag.{ancestors_loop}
use smoking_data.Core.PipelineDag.Ancestors.{Feeds, input, further}

module _ (deps : String → List String) where
  -- What an operation of the result reads is found or pending.
  abbrev IsOpen : List String → List String → Type 0
  IsOpen pending result =
      (k d : String)
      → contains k result ≡ true
      → contains d (deps k) ≡ true
      → (contains d result || contains d pending) ≡ true

  skip-IsOpen :
      (current : String) (pending result : List String)
      → contains current result ≡ true
      → IsOpen (current ∷ pending) result
      → IsOpen pending result
  skip-IsOpen current pending result old h k d m e = ground (arith, h k d m e, eq_iff d current)

  add-IsOpen :
      (current : String) (pending result : List String)
      → IsOpen (current ∷ pending) result
      → IsOpen (deps current ++ pending) (current ∷ result)
  add-IsOpen current pending result h k d m e = elim (Bool-cases (str_eq k current)) [
    | inl here ↦
        let e' = subst (λ y. contains d (deps y) ≡ true) ((eq_iff k current).0 here) e in
        ground (arith, e', contains-append d (deps current) pending)
    | inr there ↦
        ground (
          arith,
          h k d (ground arith) e,
          contains-append d (deps current) pending,
          eq_iff d current,
        )
  ]

  ancestors_loop-has :
      (fuel : ℕ) (pending result out : List String) (x : String)
      → ancestors_loop deps fuel pending result ≡ some out
      → (contains x result || contains x pending) ≡ true
      → contains x out ≡ true
  unfolding ancestors_loop
  ancestors_loop-has fuel [] result out x e k =
      let same : result ≡ out = cc in subst (λ xs. contains x xs ≡ true) same (ground arith)
  ancestors_loop-has zero (current ∷ pending) result out x e k = cc
  ancestors_loop-has (suc fuel) (current ∷ pending) result out x e k =
      elim (Bool-cases (contains current result)) [
        | inl old ↦
            ancestors_loop-has fuel pending result out x (rw old at e)
              (ground (arith, eq_iff x current))
        | inr new ↦
            ancestors_loop-has fuel (deps current ++ pending) (current ∷ result) out x (rw new at e)
              (ground (arith, contains-append x (deps current) pending))
      ]

  -- What an operation that is found reads is found.
  ancestors_loop-closed :
      (fuel : ℕ) (pending result out : List String) (k d : String)
      → IsOpen pending result
      → ancestors_loop deps fuel pending result ≡ some out
      → contains k out ≡ true
      → contains d (deps k) ≡ true
      → contains d out ≡ true
  unfolding ancestors_loop
  ancestors_loop-closed fuel [] result out k d h e m n =
      let same : result ≡ out = cc in
      let m' = subst (λ xs. contains k xs ≡ true) (sym same) m in
      subst (λ xs. contains d xs ≡ true) same (ground (arith, h k d m' n))
  ancestors_loop-closed zero (current ∷ pending) result out k d h e m n = cc
  ancestors_loop-closed (suc fuel) (current ∷ pending) result out k d h e m n =
      elim (Bool-cases (contains current result)) [
        | inl old ↦
            ancestors_loop-closed fuel pending result out k d
              (skip-IsOpen current pending result old h) (rw old at e) m n
        | inr new ↦
            ancestors_loop-closed fuel (deps current ++ pending) (current ∷ result) out k d
              (add-IsOpen current pending result h) (rw new at e) m n
      ]

  pub Feeds-ancestors_loop :
      (fuel : ℕ) (out : List String) (x save : String)
      → ancestors_loop deps fuel (deps save) [] ≡ some out
      → Feeds deps x save
      → contains x out ≡ true
  Feeds-ancestors_loop fuel out _ _ e (input x save h) =
      ancestors_loop-has fuel (deps save) [] out x e (ground arith)
  Feeds-ancestors_loop fuel out _ _ e (further x y save h f) =
      ancestors_loop-closed fuel (deps save) [] out y x (λ k d m n. cc) e
        (Feeds-ancestors_loop fuel out y save e f) h
