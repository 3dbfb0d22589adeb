-- ===== src/Core/PipelineDag/Bound.antt =====
-- The fuel of the searches in src/smoking_data/core/pipeline_dag.py is enough.
use smoking_data.Prelude.{
  ◌≡◌, ◌≢◌, refl, String, Bool, true, false, not, Option, none, some, List, [], ◌∷◌, arith, any,
  keep, is_empty,
}
use smoking_data.Prelude.Names.{contains}
use smoking_data.Prelude.Result.{Result, ok, err, ◌>>=◌, ◌>>◌}
use smoking_data.Core.PipelineDag.{
  PipelineOperation, PipelineGraph, DagError, out_of_fuel, Inputs, refuse, aliases, inputs_of,
  check_aliases, check_artifact, check_edge, check_edges, check_mapping, check_ports, check_kinds,
  no_data_input, check_operations, dag_dependencies, stable_topological_sort, ancestors,
  check_connected, is_save, kind_of_alias, only_save, terminal_graph, sorted_graph,
  normalize_operations,
}
use smoking_data.Core.PipelineDag.Edges.{check_aliases-unique, sort-ne-out_of_fuel}
use smoking_data.Core.PipelineDag.Laws.{ancestors-some}

abbrev is_fuel : DagError → Bool
is_fuel out_of_fuel = true
is_fuel _ = false

abbrev lacks_fuel : {A : Type 0} → Result DagError A → Bool
lacks_fuel (ok a) = false
lacks_fuel (err e) = is_fuel e

bind-lacks_fuel :
    {A B : Type 0} (m : Result DagError A) (f : A → Result DagError B)
    → lacks_fuel m ≡ false
    → ((a : A) → m ≡ ok a → lacks_fuel (f a) ≡ false)
    → lacks_fuel (m >>= f) ≡ false
bind-lacks_fuel (ok a) f h k = k a refl
bind-lacks_fuel (err e) f h k = h

refuse-lacks_fuel : (b : Bool) (e : DagError) → is_fuel e ≡ false → lacks_fuel (refuse b e) ≡ false
refuse-lacks_fuel true e h = h
refuse-lacks_fuel false e h = refl

aliases-lacks_fuel :
    (seen : List String) (nodes : List PipelineOperation)
    → lacks_fuel (check_aliases seen nodes) ≡ false
unfolding check_aliases
aliases-lacks_fuel seen [] = refl
aliases-lacks_fuel seen (n ∷ nodes) = ground (arith, aliases-lacks_fuel (n.alias ∷ seen) nodes)

mapping-lacks_fuel :
    (b : Bool) (inputs : Option Inputs) → lacks_fuel (check_mapping b inputs) ≡ false
mapping-lacks_fuel true none = refl
mapping-lacks_fuel true (some inputs) =
    refuse-lacks_fuel (not (is_empty inputs)) DagError.unexpected_inputs refl
mapping-lacks_fuel false none = refl
mapping-lacks_fuel false (some inputs) = refl

ports-lacks_fuel : (kind : String) (inputs : Inputs) → lacks_fuel (check_ports kind inputs) ≡ false
unfolding check_ports
ports-lacks_fuel kind inputs = ground arith

kinds-lacks_fuel :
    (nodes : List PipelineOperation) (kind : String) (inputs : Inputs)
    → lacks_fuel (check_kinds nodes kind inputs) ≡ false
unfolding check_kinds
kinds-lacks_fuel nodes kind inputs = ground arith

artifact-lacks_fuel :
    (kind port : String) (o : Option String) → lacks_fuel (check_artifact kind port o) ≡ false
artifact-lacks_fuel kind port none = refl
artifact-lacks_fuel kind port (some k) = ground arith

edge-lacks_fuel :
    (nodes : List PipelineOperation) (n : PipelineOperation) (port upstream : String)
    → lacks_fuel (check_edge nodes n port upstream) ≡ false
edge-lacks_fuel nodes n port upstream =
    ground (arith, artifact-lacks_fuel n.op port (kind_of_alias nodes upstream))

edges-lacks_fuel :
    (nodes : List PipelineOperation) (n : PipelineOperation) (inputs : Inputs)
    → lacks_fuel (check_edges nodes n inputs) ≡ false
unfolding check_edges
edges-lacks_fuel nodes n [] = refl
edges-lacks_fuel nodes n (i ∷ inputs) =
    bind-lacks_fuel (check_edge nodes n i.0 i.1) (λ _. check_edges nodes n inputs)
      (edge-lacks_fuel nodes n i.0 i.1) λ a _. edges-lacks_fuel nodes n inputs

operations-lacks_fuel :
    (nodes rest : List PipelineOperation) → lacks_fuel (check_operations nodes rest) ≡ false
unfolding check_operations
operations-lacks_fuel nodes [] = refl
operations-lacks_fuel nodes (n ∷ rest) =
    let later = check_operations nodes rest in
    let edges = check_edges nodes n (inputs_of n) in
    let kinds = check_kinds nodes n.op (inputs_of n) in
    bind-lacks_fuel (check_mapping (no_data_input n.op) n.inputs)
      (λ _. check_ports n.op (inputs_of n) >> (kinds >> (edges >> later)))
      (mapping-lacks_fuel (no_data_input n.op) n.inputs)
      λ a _.
        bind-lacks_fuel (check_ports n.op (inputs_of n)) (λ _. kinds >> (edges >> later))
          (ports-lacks_fuel n.op (inputs_of n))
          λ b _.
            bind-lacks_fuel kinds (λ _. edges >> later) (kinds-lacks_fuel nodes n.op (inputs_of n))
              λ c _.
                bind-lacks_fuel edges (λ _. later) (edges-lacks_fuel nodes n (inputs_of n))
                  λ d _. operations-lacks_fuel nodes rest

save-lacks_fuel : (saves : List String) → lacks_fuel (only_save saves) ≡ false
save-lacks_fuel [] = refl
save-lacks_fuel (x ∷ []) = refl
save-lacks_fuel (x ∷ y ∷ saves) = refl

connected-lacks_fuel :
    (nodes : List PipelineOperation) (save : String) (o : Option (List String)) (out : List String)
    → o ≡ some out
    → lacks_fuel (check_connected nodes save o) ≡ false
connected-lacks_fuel nodes save none out h = cc
connected-lacks_fuel nodes save (some found) out h =
    refuse-lacks_fuel (any (λ x. not (contains x (save ∷ found))) (aliases nodes))
      DagError.disconnected_operation refl

terminal-lacks_fuel :
    (nodes : List PipelineOperation) (order : List String) (save : String)
    → lacks_fuel (terminal_graph nodes order save) ≡ false
unfolding terminal_graph
terminal-lacks_fuel nodes order save =
    let (out, e) = ancestors-some nodes save in
    let connected = check_connected nodes save (ancestors nodes save) in
    let read = any (λ k. contains save (dag_dependencies nodes k)) (aliases nodes) in
    let graph : PipelineGraph = record { order = order; save = save } in
    bind-lacks_fuel (refuse read DagError.save_not_terminal) (λ _. connected >> ok graph)
      (refuse-lacks_fuel read DagError.save_not_terminal refl)
      λ a _.
        bind-lacks_fuel connected (λ _. ok graph)
          (connected-lacks_fuel nodes save (ancestors nodes save) out e) λ b _. refl

sort-lacks_fuel : (o : Result DagError (List String)) → o ≢ err out_of_fuel → lacks_fuel o ≡ false
sort-lacks_fuel (ok order) h = refl
sort-lacks_fuel (err out_of_fuel) h = absurd (h refl)
sort-lacks_fuel (err _) h = refl

all-lacks_fuel : (nodes : List PipelineOperation) → lacks_fuel (normalize_operations nodes) ≡ false
unfolding normalize_operations sorted_graph
all-lacks_fuel nodes =
    let sorting = stable_topological_sort nodes >>= sorted_graph nodes in
    bind-lacks_fuel (refuse (is_empty nodes) DagError.invalid_type)
      (λ _. check_aliases [] nodes >> (check_operations nodes nodes >> sorting))
      (refuse-lacks_fuel (is_empty nodes) DagError.invalid_type refl)
      λ a _.
        bind-lacks_fuel (check_aliases [] nodes) (λ _. check_operations nodes nodes >> sorting)
          (aliases-lacks_fuel [] nodes)
          λ b hb.
            bind-lacks_fuel (check_operations nodes nodes) (λ _. sorting)
              (operations-lacks_fuel nodes nodes)
              λ c _.
                bind-lacks_fuel (stable_topological_sort nodes) (sorted_graph nodes)
                  (sort-lacks_fuel (stable_topological_sort nodes)
                    (sort-ne-out_of_fuel nodes (check_aliases-unique [] nodes b hb).0))
                  λ order _.
                    bind-lacks_fuel (only_save (keep (is_save nodes) order))
                      (terminal_graph nodes order) (save-lacks_fuel (keep (is_save nodes) order))
                      λ save _. terminal-lacks_fuel nodes order save

-- The bounds on the rounds of the sort and on the steps of the search for ancestors are never met.
pub normalize_operations-ne-out_of_fuel :
    (nodes : List PipelineOperation) → normalize_operations nodes ≢ err out_of_fuel
normalize_operations-ne-out_of_fuel nodes h = ground (arith, all-lacks_fuel nodes)
