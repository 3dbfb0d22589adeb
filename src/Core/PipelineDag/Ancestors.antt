-- ===== src/Core/PipelineDag/Ancestors.antt =====
-- What `_ancestors` of src/smoking_data/core/pipeline_dag.py finds.
use smoking_data.Prelude.{
  ℕ, zero, suc, ◌≡◌, subst, sym, String, true, some, List, [], ◌∷◌, ◌++◌, arith, Bool-cases, inl,
  inr, eq_iff, str_eq,
}
use smoking_data.Prelude.Names.{contains}
use smoking_data.Prelude.Names.Laws.{contains-append}
use smoking_data.Core.PipelineDag.{ancestors_loop}

-- The output of the first operation goes into the second, or into an operation that feeds it.
pub data Feeds (deps : String → List String) : String → String → Type 0 where
  input : (x y : String) → contains x (deps y) ≡ true → Feeds deps x y
  further : (x y z : String) → contains x (deps y) ≡ true → Feeds deps y z → Feeds deps x z

module _ (deps : String → List String) (save : String) where
  pending-Feeds :
      (current : String) (pending : List String) (x : String)
      → Feeds deps current save
      → ((k : String) → contains k pending ≡ true → Feeds deps k save)
      → contains x (deps current ++ pending) ≡ true
      → Feeds deps x save
  pending-Feeds current pending x c h k = elim (Bool-cases (contains x (deps current))) [
    | inl here ↦ further x current save here c
    | inr there ↦ h x (ground (arith, contains-append x (deps current) pending))
  ]

  result-Feeds :
      (current : String) (result : List String) (x : String)
      → Feeds deps current save
      → ((k : String) → contains k result ≡ true → Feeds deps k save)
      → contains x (current ∷ result) ≡ true
      → Feeds deps x save
  result-Feeds current result x c h k = elim (Bool-cases (str_eq x current)) [
    | inl here ↦ subst (λ y. Feeds deps y save) (sym ((eq_iff x current).0 here)) c
    | inr there ↦ h x (ground arith)
  ]

  -- All that is found feeds the operation that the search started from.
  pub ancestors_loop-Feeds :
      (fuel : ℕ) (pending result out : List String) (x : String)
      → ((k : String) → contains k pending ≡ true → Feeds deps k save)
      → ((k : String) → contains k result ≡ true → Feeds deps k save)
      → ancestors_loop deps fuel pending result ≡ some out
      → contains x out ≡ true
      → Feeds deps x save
  unfolding ancestors_loop
  ancestors_loop-Feeds fuel [] result out x hp hr e k =
      let e' : result ≡ out = cc in hr x (subst (λ xs. contains x xs ≡ true) (sym e') k)
  ancestors_loop-Feeds zero (current ∷ pending) result out x hp hr e k = cc
  ancestors_loop-Feeds (suc fuel) (current ∷ pending) result out x hp hr e k =
      let c = hp current (ground (arith, eq_iff current current)) in
      let rest = λ (y : String) (m : contains y pending ≡ true). hp y (ground arith) in
      elim (Bool-cases (contains current result)) [
        | inl old ↦ ancestors_loop-Feeds fuel pending result out x rest hr (rw old at e) k
        | inr new ↦
            ancestors_loop-Feeds fuel (deps current ++ pending) (current ∷ result) out x
              (λ y m. pending-Feeds current pending y c rest m)
              (λ y m. result-Feeds current result y c hr m) (rw new at e) k
      ]
