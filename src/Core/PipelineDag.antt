-- ===== src/Core/PipelineDag.antt =====
-- The checks of the operation graph in `normalize_pipeline_document` of src/smoking_data/core/pipeline_dag.py,
-- from the operations of the document to their order. Texts are stripped, an empty one standing for a missing
-- one; of an error the code is kept, and its context left out. `DagError.out_of_fuel` has no counterpart.
pub mod Ancestors
pub mod Fuel
pub mod Closure
pub mod Edges
pub mod Laws
pub mod Bound
mod Examples
use text.Mathlib.Text.{starts_with}
use smoking_data.Prelude.{
  ℕ, zero, suc, ◌+◌, ◌≡◌, String, Bool, true, false, not, ◌&&◌, ◌||◌, Option, none, some, List, [],
  ◌∷◌, ◌++◌, map, ◌==◌, length, is_empty, keep, any, all, sum_by, if◌then◌else◌, str_eq,
}
use smoking_data.Prelude.Names.{contains, union, diff}
use smoking_data.Prelude.Result.{Result, ok, err, ◌>>=◌, ◌>>◌}
use smoking_data.Graph.{place}
use smoking_data.Graph.Queues.{index_of, sort_each_time}

abbrev pub Inputs : Type 0
Inputs = List (String × String)

pub record PipelineOperation : Type 0 where
  pub alias : String
  pub op : String
  pub inputs : Option Inputs

pub data DagError : Type 0 where
  invalid_type required_key unsupported duplicate_operation_alias unexpected_inputs : DagError
  invalid_keyspace_sources unknown_input_port missing_input_port input_artifact_mismatch : DagError
  unknown_input_operation self_reference cycle_detected terminal_save_required : DagError
  save_not_terminal disconnected_operation out_of_fuel : DagError

abbrev pub Checked : Type 0
Checked = Result DagError (Unit {0})

-- `raise` where the test holds.
abbrev pub refuse : Bool → DagError → Checked
refuse true e = err e
refuse false e = ok tt

abbrev pub aliases : List PipelineOperation → List String
aliases nodes = map (λ (n : PipelineOperation). n.alias) nodes

abbrev pub no_data_input : String → Bool
no_data_input kind = contains kind ("define_dataset" ∷ "define_asset" ∷ "define_combined" ∷ [])

-- `_PORTS.get(kind, ("data",))`
abbrev pub ports : String → List String
ports kind =
    if no_data_input kind || str_eq kind "define_keyspace"
    then []
    else if str_eq kind "active_row_selection"
    then "sidecar" ∷ []
    else if str_eq kind "build_sidecar" || str_eq kind "materialize"
    then "source" ∷ []
    else if str_eq kind "join"
    then "left" ∷ "right" ∷ []
    else "data" ∷ []

abbrev pub ports_of : Inputs → List String
ports_of inputs = map (λ (i : String × String). i.0) inputs

abbrev pub upstreams_of : Inputs → List String
upstreams_of inputs = map (λ (i : String × String). i.1) inputs

abbrev pub input_at : Inputs → String → String
input_at [] port = ""
input_at (i ∷ inputs) port =
    let later = input_at inputs port in if str_eq i.0 port then i.1 else later

-- The kind of the operation of an alias; no operation has it where this is empty.
abbrev pub kind_of_alias : List PipelineOperation → String → Option String
kind_of_alias [] x = none
kind_of_alias (n ∷ nodes) x =
    let later = kind_of_alias nodes x in if str_eq n.alias x then some n.op else later

-- The aliases of the operations before are `seen`.
unfoldable pub check_aliases : List String → List PipelineOperation → Checked
check_aliases seen [] = ok tt
check_aliases seen (n ∷ nodes) =
    let later = check_aliases (n.alias ∷ seen) nodes in
    if str_eq n.alias "" || str_eq n.op ""
    then err required_key
    else if contains n.op ("load_asset" ∷ "load_dataset" ∷ [])
    then err unsupported
    else if contains n.alias seen
    then err duplicate_operation_alias
    else later

abbrev pub inputs_of : PipelineOperation → Inputs
inputs_of n = elim n.inputs [ none ↦ [] | some inputs ↦ if no_data_input n.op then [] else inputs ]

abbrev pub check_mapping : Bool → Option Inputs → Checked
check_mapping true none = ok tt
check_mapping true (some inputs) = refuse (not (is_empty inputs)) unexpected_inputs
check_mapping false none = err invalid_type
check_mapping false (some inputs) = ok tt

abbrev pub required_ports : String → Inputs → List String
required_ports kind inputs = if str_eq kind "define_keyspace" then ports_of inputs else ports kind

abbrev pub allowed_ports : String → Inputs → List String
allowed_ports kind inputs =
    let required = required_ports kind inputs in
    if str_eq kind "materialize" then "coordinates" ∷ required else required

unfoldable pub check_ports : String → Inputs → Checked
check_ports kind inputs = do
  refuse
      (str_eq kind "define_keyspace"
        && (is_empty inputs || any (λ port. not (starts_with port "member_")) (ports_of inputs)))
      invalid_keyspace_sources
  refuse (not (is_empty (diff (ports_of inputs) (allowed_ports kind inputs)))) unknown_input_port
  refuse (any (λ port. str_eq (input_at inputs port) "") (required_ports kind inputs))
      missing_input_port

-- `_require_upstream_kind`
abbrev pub other_kind : Option String → List String → Bool
other_kind none allowed = false
other_kind (some kind) allowed = not (contains kind allowed)

abbrev pub has_kind : Option String → String → Bool
has_kind none kind = false
has_kind (some k) kind = str_eq k kind

unfoldable pub check_kinds : List PipelineOperation → String → Inputs → Checked
check_kinds nodes kind inputs = do
  refuse
      (str_eq kind "active_row_selection"
        && other_kind (kind_of_alias nodes (input_at inputs "sidecar")) ("build_sidecar" ∷ []))
      input_artifact_mismatch
  refuse
      (str_eq kind "materialize"
        && not (str_eq (input_at inputs "coordinates") "")
        && other_kind (kind_of_alias nodes (input_at inputs "coordinates"))
            ("active_row_selection" ∷ "build_sidecar" ∷ []))
      input_artifact_mismatch
  refuse
      (str_eq kind "build_sidecar"
        && has_kind (kind_of_alias nodes (input_at inputs "source")) "build_sidecar")
      input_artifact_mismatch

abbrev pub expected_input_artifact : String → String → String
expected_input_artifact kind port =
    if str_eq kind "active_row_selection" && str_eq port "sidecar"
    then "sidecar"
    else if str_eq kind "materialize" && str_eq port "coordinates"
    then "coordinates"
    else "dataset"

abbrev pub output_artifact : String → String
output_artifact kind =
    if str_eq kind "build_sidecar"
    then "sidecar"
    else if str_eq kind "active_row_selection"
    then "coordinates"
    else if str_eq kind "save_dataset"
    then "terminal_receipt"
    else "dataset"

-- The artifact of the upstream operation does for the port.
abbrev pub is_compatible : String → String → String → Bool
is_compatible kind port upstream_kind =
    str_eq (output_artifact upstream_kind) (expected_input_artifact kind port)
    || (str_eq kind "materialize"
        && str_eq port "coordinates"
        && str_eq upstream_kind "build_sidecar")

abbrev pub check_artifact : String → String → Option String → Checked
check_artifact kind port none = err unknown_input_operation
check_artifact kind port (some upstream_kind) =
    refuse (not (is_compatible kind port upstream_kind)) input_artifact_mismatch

-- One edge: the upstream operation exists, is another one, and its artifact does for the port.
abbrev pub check_edge : List PipelineOperation → PipelineOperation → String → String → Checked
check_edge nodes n port upstream =
    if str_eq upstream ""
    then err required_key
    else if contains upstream (aliases nodes) && str_eq upstream n.alias
    then err self_reference
    else check_artifact n.op port (kind_of_alias nodes upstream)

unfoldable pub check_edges : List PipelineOperation → PipelineOperation → Inputs → Checked
check_edges nodes n [] = ok tt
check_edges nodes n (i ∷ inputs) = do check_edge nodes n i.0 i.1; check_edges nodes n inputs

unfoldable pub check_operations : List PipelineOperation → List PipelineOperation → Checked
unfolding check_ports check_kinds check_edges
check_operations nodes [] = ok tt
check_operations nodes (n ∷ rest) = do
  check_mapping (no_data_input n.op) n.inputs
  check_ports n.op (inputs_of n)
  check_kinds nodes n.op (inputs_of n)
  check_edges nodes n (inputs_of n)
  check_operations nodes rest

unfoldable pub dag_dependencies : List PipelineOperation → String → List String
dag_dependencies [] x = []
dag_dependencies (n ∷ nodes) x =
    let later = dag_dependencies nodes x in
    if str_eq n.alias x then union [] (upstreams_of (inputs_of n)) else later

abbrev pub order_or_error : List String → Option (List String) → Result DagError (List String)
order_or_error ids none = err out_of_fuel
order_or_error ids (some order) =
    if length order == length ids then ok order else err cycle_detected

-- `_stable_topological_sort`
unfoldable pub stable_topological_sort : List PipelineOperation → Result DagError (List String)
unfolding place
stable_topological_sort nodes =
    let ids = aliases nodes in
    order_or_error ids
      (place (sort_each_time (index_of ids)) ids (index_of ids) (dag_dependencies nodes))

-- `_ancestors`: the stack `pending` with its top first; `none` means that the fuel ran out.
unfoldable pub ancestors_loop :
    (String → List String) → ℕ → List String → List String → Option (List String)
ancestors_loop deps fuel [] result = some result
ancestors_loop deps zero (current ∷ pending) result = none
ancestors_loop deps (suc fuel) (current ∷ pending) result =
    if contains current result
    then ancestors_loop deps fuel pending result
    else ancestors_loop deps fuel (deps current ++ pending) (current ∷ result)

-- As many steps as there are edges, and the first operation's once more.
abbrev pub ancestors : List PipelineOperation → String → Option (List String)
ancestors nodes x =
    let deps = dag_dependencies nodes in
    ancestors_loop deps (length (deps x) + sum_by (λ k. length (deps k)) (aliases nodes)) (deps x)
      []

abbrev pub check_connected : List PipelineOperation → String → Option (List String) → Checked
check_connected nodes save none = err out_of_fuel
check_connected nodes save (some found) =
    refuse (any (λ x. not (contains x (save ∷ found))) (aliases nodes)) disconnected_operation

abbrev pub is_save : List PipelineOperation → String → Bool
is_save nodes x = has_kind (kind_of_alias nodes x) "save_dataset"

-- The one save operation.
abbrev pub only_save : List String → Result DagError String
only_save (save ∷ []) = ok save
only_save _ = err terminal_save_required

pub record PipelineGraph : Type 0 where
  pub order : List String
  pub save : String

-- The checks behind the sort.
unfoldable pub terminal_graph :
    List PipelineOperation → List String → String → Result DagError PipelineGraph
unfolding dag_dependencies ancestors_loop
terminal_graph nodes order save = do
  refuse (any (λ k. contains save (dag_dependencies nodes k)) (aliases nodes)) save_not_terminal
  check_connected nodes save (ancestors nodes save)
  ok (record { order = order; save = save })

unfoldable pub sorted_graph : List PipelineOperation → List String → Result DagError PipelineGraph
unfolding terminal_graph
sorted_graph nodes order = do
  save ← only_save (keep (is_save nodes) order)
  terminal_graph nodes order save

unfoldable pub normalize_operations : List PipelineOperation → Result DagError PipelineGraph
unfolding check_aliases check_operations stable_topological_sort sorted_graph
normalize_operations nodes = do
  refuse (is_empty nodes) invalid_type
  check_aliases [] nodes
  check_operations nodes nodes
  order ← stable_topological_sort nodes
  sorted_graph nodes order
