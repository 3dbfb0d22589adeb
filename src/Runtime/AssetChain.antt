-- ===== src/Runtime/AssetChain.antt =====
-- src/smoking_data/runtime/asset_chain.py: the graph that `load_asset_chain` accepts and the order
-- in which it puts the assets. `ChainError.out_of_fuel` has no counterpart in the source.
pub mod Order
pub mod Load
pub mod Run
pub mod Chain
mod Examples
use smoking_data.Prelude.{
  ℕ, ◌≡◌, String, Bool, true, false, not, Option, none, some, List, [], ◌∷◌, map, ◌==◌, length,
  keep, if◌then◌else◌, str_eq,
}
use smoking_data.Prelude.Names.{contains, union}
use smoking_data.Prelude.Result.{Result, ok, err, ◌>>=◌, ◌>>◌}
use smoking_data.Graph.{place}
use smoking_data.Graph.Queues.{index_of, sort_after_loop}

pub record AssetNode : Type 0 where
  pub asset_id : String
  pub asset_code : String
  pub definition_path : String
  -- ports with the upstream asset of each
  pub inputs : List (String × String)

pub data ChainError : Type 0 where
  duplicate_asset_id : String → ChainError
  self_reference : String → ChainError
  unknown_upstream : String → String → ChainError
  cycle : List String → ChainError
  out_of_fuel : ChainError

abbrev pub asset_ids : List AssetNode → List String
asset_ids nodes = map (λ (n : AssetNode). n.asset_id) nodes

abbrev pub upstreams : AssetNode → List String
upstreams n = map (λ (i : String × String). i.1) n.inputs

-- `dependencies = {node.asset_id: set(node.inputs.values()) for node in nodes}`
unfoldable pub dependencies : List AssetNode → String → List String
dependencies [] x = []
dependencies (n ∷ nodes) x =
    let later = dependencies nodes x in
    if str_eq n.asset_id x then union [] (upstreams n) else later

-- The identifiers that an earlier node has taken are `seen`.
pub check_distinct : List String → List AssetNode → Result ChainError (Unit {0})
check_distinct seen [] = ok tt
check_distinct seen (n ∷ nodes) =
    let later = check_distinct (n.asset_id ∷ seen) nodes in
    if contains n.asset_id seen then err (duplicate_asset_id n.asset_id) else later

pub check_inputs : List String → String → List String → Result ChainError (Unit {0})
check_inputs ids asset_id [] = ok tt
check_inputs ids asset_id (u ∷ us) =
    let later = check_inputs ids asset_id us in
    if str_eq u asset_id
    then err (self_reference asset_id)
    else if not (contains u ids)
    then err (unknown_upstream asset_id u)
    else later

pub check_nodes : List String → List AssetNode → Result ChainError (Unit {0})
check_nodes ids [] = ok tt
check_nodes ids (n ∷ nodes) = do check_inputs ids n.asset_id (upstreams n); check_nodes ids nodes

-- Every node placed, or the nodes that are left on a cycle.
abbrev pub order_or_cycle : List String → Option (List String) → Result ChainError (List String)
order_or_cycle ids none = err out_of_fuel
order_or_cycle ids (some order) =
    if length order == length ids
    then ok order
    else err (cycle (keep (λ x. not (contains x order)) ids))

pub topological_order : List AssetNode → Result ChainError (List String)
topological_order nodes =
    let ids = asset_ids nodes in
    order_or_cycle ids
      (place (sort_after_loop (index_of ids)) ids (index_of ids) (dependencies nodes))

-- The part of `load_asset_chain` that reads the graph.
pub load_graph : List AssetNode → Result ChainError (List String)
unfolding check_distinct check_inputs check_nodes
load_graph nodes = do
  check_distinct [] nodes
  check_nodes (asset_ids nodes) nodes
  topological_order nodes
