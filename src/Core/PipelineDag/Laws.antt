-- ===== src/Core/PipelineDag/Laws.antt =====
-- What the operations of a pipeline that src/smoking_data/core/pipeline_dag.py accepts are.
use smoking_data.Prelude.{
  ◌+◌, ◌≡◌, refl, ap, subst, String, Bool, true, false, not, Option, none, some, List, [], ◌∷◌,
  arith, Bool-cases, ◌↔◌, ◌⊎◌, inl, inr, eq_iff, str_eq, length, sum_by, All, any, keep, is_empty,
}
use smoking_data.Prelude.Names.{contains}
use smoking_data.Prelude.Names.Laws.{contains-keep}
use smoking_data.Prelude.Result.{ok, ◌>>=◌, ◌>>◌}
use smoking_data.Core.PipelineDag.{
  PipelineOperation, DagError, refuse, aliases, inputs_of, check_aliases, check_operations,
  dag_dependencies, stable_topological_sort, ancestors, check_connected, is_save, only_save,
  terminal_graph, sorted_graph, PipelineGraph, normalize_operations,
}
use smoking_data.Core.PipelineDag.Ancestors.{Feeds, ancestors_loop-Feeds}
use smoking_data.Core.PipelineDag.Closure.{Feeds-ancestors_loop}
use smoking_data.Core.PipelineDag.Fuel.{ancestors_loop-ends}
use smoking_data.Core.PipelineDag.Edges.{
  bind-ok, refuse-ok, check_aliases-unique, IsFed, check_operations-IsFed, IsSorted, sort-IsSorted,
}

closed_dependencies :
    (nodes : List PipelineOperation) (x : String)
    → contains x (aliases nodes) ≡ false
    → dag_dependencies nodes x ≡ []
unfolding dag_dependencies
closed_dependencies [] x h = refl
closed_dependencies (n ∷ nodes) x h =
    ground (arith, closed_dependencies nodes x, eq_iff x n.alias, eq_iff n.alias x)

-- The fuel of the search for ancestors is enough.
pub ancestors-some :
    (nodes : List PipelineOperation) (x : String)
    → (out : List String) × (ancestors nodes x ≡ some out)
ancestors-some nodes x =
    let deps = dag_dependencies nodes in
    ancestors_loop-ends deps (aliases nodes)
      (length (deps x) + sum_by (λ k. length (deps k)) (aliases nodes)) (deps x) []
      (closed_dependencies nodes) (omega arith)

ancestors-Feeds :
    (nodes : List PipelineOperation) (save : String) (out : List String) (x : String)
    → ancestors nodes save ≡ some out
    → contains x out ≡ true
    → Feeds (dag_dependencies nodes) x save
ancestors-Feeds nodes save out x h k =
    let deps = dag_dependencies nodes in
    ancestors_loop-Feeds deps save
      (length (deps save) + sum_by (λ y. length (deps y)) (aliases nodes)) (deps save) [] out x
      (λ y m. Feeds.input y save m) (λ y m. cc) h k

-- The search from an operation ends, and what it finds are exactly the operations that feed it.
pub ancestors_iff :
    (nodes : List PipelineOperation) (save : String)
    → (out : List String) × (ancestors nodes save ≡ some out)
      × ((x : String) → (contains x out ≡ true) ↔ Feeds (dag_dependencies nodes) x save)
ancestors_iff nodes save =
    let (out, e) = ancestors-some nodes save in
    let deps = dag_dependencies nodes in
    let fuel = length (deps save) + sum_by (λ k. length (deps k)) (aliases nodes) in
    (out, e, λ x. (ancestors-Feeds nodes save out x e, Feeds-ancestors_loop deps fuel out x save e))

any_none :
    (p : String → Bool) (xs : List String) (x : String)
    → any p xs ≡ false
    → contains x xs ≡ true
    → p x ≡ false
any_none p [] x h k = cc
any_none p (y ∷ xs) x h k = ground (arith, any_none p xs x, eq_iff x y)

connected-Feeds :
    (nodes : List PipelineOperation) (save : String) (o : Option (List String)) (u : Unit)
    (x : String)
    → ancestors nodes save ≡ o
    → check_connected nodes save o ≡ ok u
    → contains x (aliases nodes) ≡ true
    → (x ≡ save) ⊎ Feeds (dag_dependencies nodes) x save
connected-Feeds nodes save none u x e h k = cc
connected-Feeds nodes save (some out) u x e h k =
    let found =
      any_none (λ y. not (contains y (save ∷ out))) (aliases nodes) x
        (refuse-ok (any (λ y. not (contains y (save ∷ out))) (aliases nodes))
          DagError.disconnected_operation u h)
        k in
    elim (Bool-cases (str_eq x save)) [
      | inl here ↦ inl ((eq_iff x save).0 here)
      | inr there ↦ inr (ancestors-Feeds nodes save out x e (ground arith))
    ]

only_save-ok : (saves : List String) (save : String) → only_save saves ≡ ok save → saves ≡ save ∷ []
only_save-ok [] save h = cc
only_save-ok (x ∷ []) save h = cc
only_save-ok (x ∷ y ∷ rest) save h = cc

-- A pipeline that is accepted.
pub record IsPipeline (nodes : List PipelineOperation) (graph : PipelineGraph) : Type 0 where
  pub sorted : IsSorted nodes graph.order
  pub fed : All (λ (n : PipelineOperation). All (IsFed nodes n) (inputs_of n)) nodes
  pub saves :
      (x : String) → contains x (aliases nodes) ≡ true → is_save nodes x ≡ str_eq x graph.save
  pub terminal :
      (x : String)
      → contains x (aliases nodes) ≡ true
      → contains graph.save (dag_dependencies nodes x) ≡ false
  pub connected :
      (x : String)
      → contains x (aliases nodes) ≡ true
      → (x ≡ graph.save) ⊎ Feeds (dag_dependencies nodes) x graph.save

saves_only :
    (nodes : List PipelineOperation) (order : List String) (save x : String)
    → IsSorted nodes order
    → keep (is_save nodes) order ≡ save ∷ []
    → contains x (aliases nodes) ≡ true
    → is_save nodes x ≡ str_eq x save
saves_only nodes order save x s e k =
    let same = ap (contains x) e in
    ground (arith, same, contains-keep (is_save nodes) x order, s.same x)

terminal-IsPipeline :
    (nodes : List PipelineOperation) (order : List String) (save : String) (graph : PipelineGraph)
    → IsSorted nodes order
    → All (λ (n : PipelineOperation). All (IsFed nodes n) (inputs_of n)) nodes
    → keep (is_save nodes) order ≡ save ∷ []
    → terminal_graph nodes order save ≡ ok graph
    → IsPipeline nodes graph
unfolding terminal_graph
terminal-IsPipeline nodes order save graph s f e h =
    let read = any (λ k. contains save (dag_dependencies nodes k)) (aliases nodes) in
    let found : PipelineGraph = record { order = order; save = save } in
    let (a, ha, h1) =
      bind-ok (refuse read DagError.save_not_terminal)
        (λ _. check_connected nodes save (ancestors nodes save) >> ok found) graph h in
    let (b, hb, h2) =
      bind-ok (check_connected nodes save (ancestors nodes save)) (λ _. ok found) graph h1 in
    let same : found ≡ graph = cc in
    subst (IsPipeline nodes) same (record {
      sorted = s;
      fed = f;
      saves = λ x. saves_only nodes order save x s e;
      terminal = λ x.
          any_none (λ k. contains save (dag_dependencies nodes k)) (aliases nodes) x
            (refuse-ok read DagError.save_not_terminal a ha);
      connected = λ x. connected-Feeds nodes save (ancestors nodes save) b x refl hb;
    })

-- An accepted document: the order holds exactly its operations, none twice, every operation behind all of
-- its inputs; the upstream operation of each input exists and its artifact does for the port; there is one
-- save operation, which no operation reads, and every other operation feeds it.
pub normalize_operations-IsPipeline :
    (nodes : List PipelineOperation) (graph : PipelineGraph)
    → normalize_operations nodes ≡ ok graph
    → IsPipeline nodes graph
unfolding normalize_operations sorted_graph
normalize_operations-IsPipeline nodes graph h =
    let sorting = stable_topological_sort nodes >>= sorted_graph nodes in
    let (a, _, h1) =
      bind-ok (refuse (is_empty nodes) DagError.invalid_type)
        (λ _. check_aliases [] nodes >> (check_operations nodes nodes >> sorting)) graph h in
    let (b, hb, h2) =
      bind-ok (check_aliases [] nodes) (λ _. check_operations nodes nodes >> sorting) graph h1 in
    let (c, hc, h3) = bind-ok (check_operations nodes nodes) (λ _. sorting) graph h2 in
    let (order, ho, h4) = bind-ok (stable_topological_sort nodes) (sorted_graph nodes) graph h3 in
    let (save, hs, h5) =
      bind-ok (only_save (keep (is_save nodes) order)) (terminal_graph nodes order) graph h4 in
    terminal-IsPipeline nodes order save graph
      (sort-IsSorted nodes order (check_aliases-unique [] nodes b hb).0 ho)
      (check_operations-IsFed nodes nodes c hc) (only_save-ok (keep (is_save nodes) order) save hs)
      h5
