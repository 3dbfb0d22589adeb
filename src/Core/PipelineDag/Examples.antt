-- ===== src/Core/PipelineDag/Examples.antt =====
-- A pipeline of two sources, a join and a save, and pipelines that are refused.
use smoking_data.Prelude.{◌≡◌, ◌≢◌, ◌↔◌, true, refl, String, List, [], ◌∷◌, some}
use smoking_data.Prelude.Result.{ok, err}
use smoking_data.Graph.{rounds, visit, visit_all}
use smoking_data.Graph.Queues.{index_of}
use smoking_data.Core.PipelineDag.{
  ancestors, dag_dependencies, PipelineOperation, PipelineGraph, cycle_detected,
  disconnected_operation, out_of_fuel, normalize_operations,
}
use smoking_data.Prelude.Names.{contains}
use smoking_data.Core.PipelineDag.Ancestors.{Feeds}
use smoking_data.Core.PipelineDag.Laws.{IsPipeline, normalize_operations-IsPipeline, ancestors_iff}
use smoking_data.Core.PipelineDag.Bound.{normalize_operations-ne-out_of_fuel}

abbrev node : String → String → List (String × String) → PipelineOperation
node alias op inputs = record { alias = alias; op = op; inputs = some inputs }

abbrev pipeline : List PipelineOperation
pipeline =
    node "save" "save_dataset" (("data", "joined") ∷ [])
    ∷ node "joined" "join" (("left", "a") ∷ ("right", "kept") ∷ [])
    ∷ node "kept" "filter" (("data", "b") ∷ [])
    ∷ node "a" "define_dataset" []
    ∷ node "b" "define_dataset" []
    ∷ []

abbrev graph : PipelineGraph
graph = record { order = "a" ∷ "b" ∷ "kept" ∷ "joined" ∷ "save" ∷ []; save = "save" }

program : Unit {0}
unfolding normalize_operations rounds visit_all visit index_of
program = tt

pipeline-ok : normalize_operations pipeline ≡ ok graph
unfolding program
pipeline-ok = refl

unused : normalize_operations (node "c" "define_dataset" [] ∷ pipeline) ≡ err disconnected_operation
unfolding program
unused = refl

cyclic :
    normalize_operations
      (node "x" "filter" (("data", "y") ∷ []) ∷ node "y" "filter" (("data", "x") ∷ []) ∷ pipeline)
    ≡ err cycle_detected
unfolding program
cyclic = refl

normalize_operations-IsPipeline_example : IsPipeline pipeline graph
normalize_operations-IsPipeline_example = normalize_operations-IsPipeline pipeline graph pipeline-ok

normalize_operations-ne-out_of_fuel_example : normalize_operations pipeline ≢ err out_of_fuel
normalize_operations-ne-out_of_fuel_example = normalize_operations-ne-out_of_fuel pipeline

ancestors_iff_example :
    (out : List String) × (ancestors pipeline "joined" ≡ some out)
    × ((x : String) → (contains x out ≡ true) ↔ Feeds (dag_dependencies pipeline) x "joined")
ancestors_iff_example = ancestors_iff pipeline "joined"
