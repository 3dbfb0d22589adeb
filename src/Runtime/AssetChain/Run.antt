-- ===== src/Runtime/AssetChain/Run.antt =====
-- `run_asset_chain` of src/smoking_data/runtime/asset_chain.py. The file system, the hashes and the
-- asset runners are the parameter `ChainHost`, over a world that an execution may change.
use smoking_data.Prelude.{
  String, Bool, true, false, not, ◌&&◌, ◌||◌, Option, none, some, List, [], ◌∷◌, is_empty, all,
  if◌then◌else◌, str_eq,
}
use smoking_data.Runtime.AssetChain.{AssetNode}

pub data Status : Type 0 where
  executed reused failed blocked : Status

pub data UnchangedPolicy : Type 0 where
  skip run : UnchangedPolicy

-- What a call of `execute_asset_definition` ends in.
pub data Outcome : Type 0 where
  payload :
      (ok : Bool) (output_paths : List String)
      (metadata_path error_type error_message : Option String)
      → Outcome
  raised : (error_type error_message : String) → Outcome

pub record AssetExecutionResult : Type 0 where
  pub asset_id : String
  pub asset_code : String
  pub definition_path : String
  pub status : Status
  pub ok : Bool
  pub input_fingerprint : String
  pub receipt_fingerprint : Option String
  pub output_paths : List String
  pub metadata_path : Option String
  pub blocked_by : List String
  pub error_type : Option String
  pub error_message : Option String

-- An asset's entry in the metadata of the run before; a missing key is `none`.
pub record PreviousAsset : Type 0 where
  pub input_fingerprint : Option String
  pub status : Option String
  pub receipt_fingerprint : Option String
  pub output_paths : List String
  pub metadata_path : Option String

-- What `_receipt_fingerprint` ends in.
pub data Receipt : Type 0 where
  digest : String → Receipt
  unreadable : (error_type error_message : String) → Receipt

-- The error that ends a run: an asset or a result that is missing, or an exception of the file system or
-- of the configuration.
pub data RunError : Type 0 where
  key_error host_error : RunError

pub record ChainHost : Type 1 where
  pub World : Type 0
  -- the hash over the definition, the configuration and the upstream receipts, sorted by port; `none` if
  -- the definition cannot be read or the configuration is invalid
  pub fingerprint : World → AssetNode → List (String × Option String) → Option String
  pub execute : World → AssetNode → Outcome × World
  pub receipt : World → AssetNode → String → List String → Option String → Receipt
  pub path_exists : World → String → Bool

abbrev pub is_down : Status → Bool
is_down failed = true
is_down blocked = true
is_down _ = false

-- Python's truth value of an optional string.
abbrev pub truthy : Option String → Bool
truthy none = false
truthy (some s) = not (str_eq s "")

abbrev pub text_or : Option String → String → String
text_or none d = d
text_or (some s) d = if str_eq s "" then d else s

-- `completed[asset_id]`
unfoldable pub find_result : String → List AssetExecutionResult → Option AssetExecutionResult
find_result x [] = none
find_result x (r ∷ rs) =
    let later = find_result x rs in if str_eq r.asset_id x then some r else later

-- `by_id[asset_id]`
unfoldable pub find_node : String → List AssetNode → Option AssetNode
find_node x [] = none
find_node x (n ∷ ns) = let later = find_node x ns in if str_eq n.asset_id x then some n else later

module _ (completed : List AssetExecutionResult) where
  -- `blocked_by`; `none` is the `KeyError` of an upstream asset without a result.
  unfoldable pub blocked_upstreams : List String → Option (List String)
  blocked_upstreams [] = some []
  blocked_upstreams (u ∷ us) = elim (find_result u completed) [
    | none ↦ none
    | some r ↦ elim (blocked_upstreams us) [
      | none ↦ none
      | some rest ↦ some (if is_down r.status then u ∷ rest else rest)
    ]
  ]

  -- The receipts by port for the input fingerprint.
  unfoldable pub upstream_receipts : List (String × String) → Option (List (String × Option String))
  upstream_receipts [] = some []
  upstream_receipts ((port, u) ∷ inputs) = elim (find_result u completed) [
    | none ↦ none
    | some r ↦ elim (upstream_receipts inputs) [
      | none ↦ none
      | some rest ↦ some ((port, r.receipt_fingerprint) ∷ rest)
    ]
  ]

module _ (host : ChainHost) where
  open host use {World, fingerprint, execute, receipt, path_exists}

  abbrev was_successful : Option String → Bool
  was_successful none = false
  was_successful (some s) = str_eq s "executed" || str_eq s "reused"

  abbrev same_text : Option String → String → Bool
  same_text none t = false
  same_text (some s) t = str_eq s t

  abbrev pub same_digest : Option String → Receipt → Option Bool
  same_digest previous (digest current) = some (same_text previous current)
  same_digest previous (unreadable type message) = none

  -- `none` is an exception of `_receipt_fingerprint`, which `_can_reuse` does not catch.
  unfoldable pub reuse_previous : World → AssetNode → String → PreviousAsset → Option Bool
  reuse_previous w node input p =
      if same_text p.input_fingerprint input
        && was_successful p.status
        && truthy p.receipt_fingerprint
        && not (is_empty p.output_paths)
        && all (path_exists w) p.output_paths
      then same_digest p.receipt_fingerprint (
          receipt w node input p.output_paths
            (if truthy p.metadata_path then p.metadata_path else none))
      else some false

  unfoldable pub can_reuse :
      World → AssetNode → String → Option PreviousAsset → UnchangedPolicy → Option Bool
  unfolding reuse_previous
  can_reuse w node input none policy = some false
  can_reuse w node input (some p) run = some false
  can_reuse w node input (some p) skip =
      if is_empty node.inputs then some false else reuse_previous w node input p

  -- The result of an exception.
  abbrev pub raised_result : AssetNode → String → String → String → AssetExecutionResult
  raised_result node input type message = record {
    asset_id = node.asset_id;
    asset_code = node.asset_code;
    definition_path = node.definition_path;
    status = failed;
    ok = false;
    input_fingerprint = input;
    receipt_fingerprint = none;
    output_paths = [];
    metadata_path = none;
    blocked_by = [];
    error_type = some type;
    error_message = some message;
  }

  -- The receipt of an execution that went well; its exception makes the asset fail.
  abbrev pub executed_result :
      AssetNode → String → List String → Option String → Receipt → AssetExecutionResult
  executed_result node input paths meta (unreadable type message) =
      raised_result node input type message
  executed_result node input paths meta (digest current) = record {
    asset_id = node.asset_id;
    asset_code = node.asset_code;
    definition_path = node.definition_path;
    status = executed;
    ok = true;
    input_fingerprint = input;
    receipt_fingerprint = some current;
    output_paths = paths;
    metadata_path = meta;
    blocked_by = [];
    error_type = none;
    error_message = none;
  }

  abbrev pub outcome_result : World → AssetNode → String → Outcome → AssetExecutionResult
  outcome_result w node input (payload true paths meta type message) =
      let metadata_path = if truthy meta then meta else none in
      executed_result node input paths metadata_path (receipt w node input paths metadata_path)
  outcome_result w node input (payload false paths meta type message) = record {
    asset_id = node.asset_id;
    asset_code = node.asset_code;
    definition_path = node.definition_path;
    status = failed;
    ok = false;
    input_fingerprint = input;
    receipt_fingerprint = none;
    output_paths = paths;
    metadata_path = if truthy meta then meta else none;
    blocked_by = [];
    error_type = some (text_or type "AssetExecutionFailure");
    error_message = some (text_or message "Asset execution failed.");
  }
  outcome_result w node input (raised type message) = raised_result node input type message

  -- `_execute_asset`: the receipt is taken in the world that the execution left.
  unfoldable pub execute_asset : World → AssetNode → String → AssetExecutionResult × World
  execute_asset w node input =
      let (outcome, w') = execute w node in (outcome_result w' node input outcome, w')
