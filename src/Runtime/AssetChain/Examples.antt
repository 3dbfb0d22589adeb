-- ===== src/Runtime/AssetChain/Examples.antt =====
-- Chains on concrete inputs, and the theorems about chains at them.
use smoking_data.Prelude.{
  map, ℕ, ◌≡◌, ◌≢◌, refl, String, true, false, Option, none, some, List, [], ◌∷◌, arith, str_eq,
  if◌then◌else◌,
}
use smoking_data.Prelude.Result.{ok, err}
use smoking_data.Graph.{visit, visit_all, rounds, place}
use smoking_data.Graph.Queues.{index_of}
use smoking_data.Graph.Place.{IsRanked}
use smoking_data.Runtime.AssetChain.{
  AssetNode, cycle, unknown_upstream, out_of_fuel, asset_ids, dependencies, check_distinct,
  check_inputs, check_nodes, topological_order, load_graph,
}
use smoking_data.Runtime.AssetChain.Order.{IsExecutionOrder, IsBlockedSet}
use smoking_data.Runtime.AssetChain.Load.{
  load_graph-IsExecutionOrder, load_graph-IsBlockedSet, load_graph-ne-out_of_fuel,
  load_graph-of_ranked,
}
use smoking_data.Runtime.AssetChain.Run.{
  find_node, find_result, blocked_upstreams, upstream_receipts, execute_asset, can_reuse, skip,
  payload, PreviousAsset, ChainHost, digest, host_error, AssetExecutionResult, executed, failed,
  blocked,
}
use smoking_data.Runtime.AssetChain.Chain.{run_asset_chain, run_assets, run_asset}

abbrev asset : String → List (String × String) → AssetNode
asset x inputs = record {
  asset_id = x;
  asset_code = "0201";
  definition_path = "job.yaml";
  inputs = inputs;
}

-- `join` reads `left` and `right`, and stands first in the file.
abbrev chain : List AssetNode
chain =
    asset "join" (("a", "left") ∷ ("b", "right") ∷ [])
    ∷ asset "right" (("source", "left") ∷ [])
    ∷ asset "left" []
    ∷ asset "other" []
    ∷ []

abbrev chain_order : List String
chain_order = "left" ∷ "right" ∷ "join" ∷ "other" ∷ []

abbrev loop : List AssetNode
loop = asset "a" (("source", "b") ∷ []) ∷ asset "b" (("source", "a") ∷ []) ∷ asset "c" [] ∷ []

program : Unit {0}
unfolding load_graph topological_order place rounds visit_all visit index_of dependencies
program = tt

load_graph-chain : load_graph chain ≡ ok chain_order
unfolding program
load_graph-chain = refl

load_graph-loop : load_graph loop ≡ err (cycle ("a" ∷ "b" ∷ []))
unfolding program
load_graph-loop = refl

load_graph-unknown :
    load_graph (asset "a" (("source", "x") ∷ []) ∷ []) ≡ err (unknown_upstream "a" "x")
unfolding program
load_graph-unknown = refl

load_graph-IsExecutionOrder_example : IsExecutionOrder chain chain_order
load_graph-IsExecutionOrder_example = load_graph-IsExecutionOrder chain chain_order load_graph-chain

load_graph-IsBlockedSet_example : IsBlockedSet loop ("a" ∷ "b" ∷ [])
load_graph-IsBlockedSet_example = load_graph-IsBlockedSet loop ("a" ∷ "b" ∷ []) load_graph-loop

load_graph-ne-out_of_fuel_example : load_graph loop ≢ err out_of_fuel
load_graph-ne-out_of_fuel_example = load_graph-ne-out_of_fuel loop

abbrev rank : String → ℕ
rank x = if str_eq x "join" then 2 else if str_eq x "right" then 1 else 0

chain-distinct : check_distinct [] chain ≡ ok tt
unfolding check_distinct
chain-distinct = refl

chain-known : check_nodes (asset_ids chain) chain ≡ ok tt
unfolding check_nodes check_inputs
chain-known = refl

chain-IsRanked : IsRanked (asset_ids chain) (dependencies chain) rank
unfolding dependencies
chain-IsRanked =
    (((refl, omega arith), ((refl, omega arith), tt)), (((refl, omega arith), tt), (tt, (tt, tt))))

load_graph-of_ranked_example : (order : List String) × (load_graph chain ≡ ok order)
load_graph-of_ranked_example =
    load_graph-of_ranked chain rank chain-distinct chain-known chain-IsRanked

-- A host on which `right` fails; its world is unit.
abbrev host : ChainHost
host = record {
  World = Unit {0};
  fingerprint = λ w n receipts. some n.asset_id;
  execute =
      λ w n. (payload (if str_eq n.asset_id "right" then false else true) [] none none none, w);
  receipt = λ w n input paths meta. digest input;
  path_exists = λ w path. false;
}

abbrev no_previous : String → Option PreviousAsset
no_previous x = none

-- The run returns, and `join` behind the failed `right` is blocked.
run_returned :
    elim (run_asset_chain host skip no_previous chain chain_order tt) [
      | err e ↦ []
      | ok run ↦ map (λ (r : AssetExecutionResult). r.status) run.assets
    ]
    ≡ executed ∷ failed ∷ blocked ∷ executed ∷ []
unfolding run_asset_chain run_assets run_asset find_node find_result blocked_upstreams
    upstream_receipts execute_asset can_reuse
run_returned = refl

-- An unreadable definition raises.
run_raised :
    run_asset_chain
      (record host { fingerprint = λ w n receipts. none })
      skip
      no_previous
      chain
      chain_order
      tt
    ≡ err host_error
unfolding run_asset_chain run_assets run_asset find_node find_result blocked_upstreams
    upstream_receipts execute_asset can_reuse
run_raised = refl
