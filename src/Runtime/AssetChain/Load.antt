-- ===== src/Runtime/AssetChain/Load.antt =====
-- What `load_graph` promises of the graph that it accepts, and of the one that it refuses.
use smoking_data.Prelude.{ℕ, ◌≡◌, ◌≢◌, refl, String, Bool, true, false, List, [], ◌∷◌, arith}
use smoking_data.Prelude.Names.Laws.{length-unique-le}
use smoking_data.Prelude.Result.{ok, err}
use smoking_data.Graph.Place.{IsRanked, placed-of_ranked}
use smoking_data.Graph.Queues.{index_of, sort_after_loop}
use smoking_data.Runtime.AssetChain.{
  AssetNode, ChainError, cycle, out_of_fuel, asset_ids, upstreams, dependencies, check_distinct,
  check_nodes, check_inputs, topological_order, load_graph,
}
use smoking_data.Runtime.AssetChain.Order.{
  IsExecutionOrder, IsBlockedSet, distinct-unique, check_nodes-known, topological_order-cases,
  topological_order-IsExecutionOrder, topological_order-IsBlockedSet,
}

abbrev from_sort : ChainError → Bool
from_sort (cycle _) = true
from_sort out_of_fuel = true
from_sort _ = false

check_distinct_error :
    (seen : List String) (nodes : List AssetNode) (e : ChainError)
    → check_distinct seen nodes ≡ err e
    → from_sort e ≡ false
unfolding check_distinct
check_distinct_error seen [] e h = cc
check_distinct_error seen (n ∷ nodes) e h =
    ground (arith, check_distinct_error (n.asset_id ∷ seen) nodes e)

check_inputs_error :
    (ids : List String) (asset_id : String) (us : List String) (e : ChainError)
    → check_inputs ids asset_id us ≡ err e
    → from_sort e ≡ false
unfolding check_inputs
check_inputs_error ids asset_id [] e h = cc
check_inputs_error ids asset_id (u ∷ us) e h = ground (arith, check_inputs_error ids asset_id us e)

check_nodes_error :
    (ids : List String) (nodes : List AssetNode) (e : ChainError)
    → check_nodes ids nodes ≡ err e
    → from_sort e ≡ false
unfolding check_nodes
check_nodes_error ids [] e h = cc
check_nodes_error ids (n ∷ nodes) e h =
    ground (arith, check_nodes_error ids nodes e, check_inputs_error ids n.asset_id (upstreams n) e)

-- An error of the sort is raised only behind the checks.
load_graph-sorted :
    (nodes : List AssetNode) (e : ChainError)
    → load_graph nodes ≡ err e
    → from_sort e ≡ true
    → (check_distinct [] nodes ≡ ok tt)
      × (check_nodes (asset_ids nodes) nodes ≡ ok tt)
      × (topological_order nodes ≡ err e)
unfolding load_graph
load_graph-sorted nodes e h f =
    ground (arith, check_distinct_error [] nodes e, check_nodes_error (asset_ids nodes) nodes e)

-- An accepted graph: the order holds exactly the assets of the file, none twice, and every asset
-- stands behind all of its upstream assets.
pub load_graph-IsExecutionOrder :
    (nodes : List AssetNode) (order : List String)
    → load_graph nodes ≡ ok order
    → IsExecutionOrder nodes order
unfolding load_graph
load_graph-IsExecutionOrder nodes order h =
    let (distinct, _) = distinct-unique [] nodes (ground arith) in
    topological_order-IsExecutionOrder nodes distinct order (ground arith)

-- A cycle error names assets of the file, at least one, each of which has an upstream asset among
-- those named.
pub load_graph-IsBlockedSet :
    (nodes : List AssetNode) (blocked : List String)
    → load_graph nodes ≡ err (cycle blocked)
    → IsBlockedSet nodes blocked
load_graph-IsBlockedSet nodes blocked h =
    let (checked, known, sorted) = load_graph-sorted nodes (cycle blocked) h refl in
    let (distinct, _) = distinct-unique [] nodes checked in
    topological_order-IsBlockedSet nodes distinct
      (λ x d. check_nodes-known (asset_ids nodes) nodes x d known) blocked sorted

-- The bound on the rounds of the sort is never met.
pub load_graph-ne-out_of_fuel : (nodes : List AssetNode) → load_graph nodes ≢ err out_of_fuel
load_graph-ne-out_of_fuel nodes h =
    let (checked, _, sorted) = load_graph-sorted nodes out_of_fuel h refl in
    let (distinct, _) = distinct-unique [] nodes checked in
    let (order, _, e) = topological_order-cases nodes distinct in ground arith

-- A file with distinct asset identifiers, known upstream assets and no cycle (a rank falls from each
-- asset to its upstream assets) is accepted.
pub load_graph-of_ranked :
    (nodes : List AssetNode) (rank : String → ℕ)
    → check_distinct [] nodes ≡ ok tt
    → check_nodes (asset_ids nodes) nodes ≡ ok tt
    → IsRanked (asset_ids nodes) (dependencies nodes) rank
    → (order : List String) × (load_graph nodes ≡ ok order)
unfolding load_graph
load_graph-of_ranked nodes rank checked known ranked =
    let ids = asset_ids nodes in
    let (distinct, _) = distinct-unique [] nodes checked in
    let (order, p, e) = topological_order-cases nodes distinct in
    let more = length-unique-le ids order distinct (λ x.
      placed-of_ranked (sort_after_loop (index_of ids)) ids (index_of ids) (dependencies nodes) rank
        order x ranked p) in
    let less = length-unique-le order ids p.distinct (λ x h. ground (arith, p.placed x)) in
    (order, rw (checked, known, e) (ground arith))
