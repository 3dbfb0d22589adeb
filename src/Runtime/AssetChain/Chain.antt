-- ===== src/Runtime/AssetChain/Chain.antt =====
-- The loop of `run_asset_chain` over the assets in their order. An error ends it without a result: a missing
-- key raises `KeyError`, and no `try` stands around the fingerprint of the inputs or the test for reuse.
pub mod Steps
pub mod Totality
use smoking_data.Prelude.{
  String, Bool, true, false, Option, none, some, List, [], ◌∷◌, ◌++◌, is_empty, all, if◌then◌else◌,
}
use smoking_data.Runtime.AssetChain.{AssetNode, upstreams}
use smoking_data.Prelude.Result.{Result, ok, err}
use smoking_data.Runtime.AssetChain.Run.{
  reused, blocked, UnchangedPolicy, AssetExecutionResult, PreviousAsset, ChainHost, RunError,
  key_error, host_error, truthy, text_or, find_node, blocked_upstreams, upstream_receipts,
  can_reuse, execute_asset,
}

abbrev pub blocked_result : AssetNode → String → List String → AssetExecutionResult
blocked_result node input blocked_by = record {
  asset_id = node.asset_id;
  asset_code = node.asset_code;
  definition_path = node.definition_path;
  status = blocked;
  ok = false;
  input_fingerprint = input;
  receipt_fingerprint = none;
  output_paths = [];
  metadata_path = none;
  blocked_by = blocked_by;
  error_type = some "UpstreamAssetFailure";
  error_message = some "Upstream asset failed; downstream execution was blocked.";
}

abbrev pub reused_result : AssetNode → String → PreviousAsset → AssetExecutionResult
reused_result node input prior = record {
  asset_id = node.asset_id;
  asset_code = node.asset_code;
  definition_path = node.definition_path;
  status = reused;
  ok = true;
  input_fingerprint = input;
  receipt_fingerprint = some (text_or prior.receipt_fingerprint "None");
  output_paths = prior.output_paths;
  metadata_path = if truthy prior.metadata_path then prior.metadata_path else none;
  blocked_by = [];
  error_type = none;
  error_message = none;
}

module _ (host : ChainHost) (policy : UnchangedPolicy)
    (previous : String → Option PreviousAsset) where
  open host use {World, fingerprint}

  abbrev pub reuse_or_execute :
      World
      → AssetNode
      → String
      → PreviousAsset
      → Option Bool
      → Result RunError (AssetExecutionResult × World)
  reuse_or_execute w node input prior none = err host_error
  reuse_or_execute w node input prior (some true) = ok (reused_result node input prior, w)
  reuse_or_execute w node input prior (some false) = ok (execute_asset host w node input)

  -- The three ways to get the result of an asset, its fingerprint and blockers being known.
  abbrev pub decide_asset :
      World
      → AssetNode
      → String
      → List String
      → Option PreviousAsset
      → Result RunError (AssetExecutionResult × World)
  decide_asset w node input (u ∷ us) prior = ok (blocked_result node input (u ∷ us), w)
  decide_asset w node input [] none = ok (execute_asset host w node input)
  decide_asset w node input [] (some prior) =
      reuse_or_execute w node input prior (can_reuse host w node input (some prior) policy)

  -- The body of the loop.
  unfoldable pub run_asset :
      World → List AssetExecutionResult → AssetNode → Result RunError (AssetExecutionResult × World)
  run_asset w completed node = elim (blocked_upstreams completed (upstreams node)) [
    | none ↦ err key_error
    | some blocked_by ↦ elim (upstream_receipts completed node.inputs) [
      | none ↦ err key_error
      | some receipts ↦ elim (fingerprint w node receipts) [
        | none ↦ err host_error
        | some input ↦ decide_asset w node input blocked_by (previous node.asset_id)
      ]
    ]
  ]

  unfoldable pub run_assets :
      List AssetNode
      → World
      → List AssetExecutionResult
      → List String
      → Result RunError (List AssetExecutionResult × World)
  run_assets nodes w completed [] = ok (completed, w)
  run_assets nodes w completed (x ∷ order) = elim (find_node x nodes) [
    | none ↦ err key_error
    | some node ↦ elim (run_asset w completed node) [
      | err e ↦ err e
      | ok (r, w') ↦ run_assets nodes w' (completed ++ r ∷ []) order
    ]
  ]

-- The final `result.ok` and `result.assets`, and the world after the run.
pub record ChainRun (host : ChainHost) : Type 0 where
  pub ok : Bool
  pub assets : List AssetExecutionResult
  pub world : host.World

abbrev pub finish_run :
    (host : ChainHost)
    → Result RunError (List AssetExecutionResult × host.World)
    → Result RunError (ChainRun host)
finish_run host (err e) = err e
finish_run host (ok (results, w)) =
    ok (record {
      ok = all (λ (r : AssetExecutionResult). r.ok) results;
      assets = results;
      world = w;
    })

unfoldable pub run_asset_chain :
    (host : ChainHost)
    → UnchangedPolicy
    → (String → Option PreviousAsset)
    → List AssetNode
    → List String
    → host.World
    → Result RunError (ChainRun host)
run_asset_chain host policy previous nodes order w =
    finish_run host (run_assets host policy previous nodes w [] order)
