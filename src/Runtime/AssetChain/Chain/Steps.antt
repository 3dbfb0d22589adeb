-- ===== src/Runtime/AssetChain/Chain/Steps.antt =====
-- One asset of a run: it gets a result if its upstream assets have results, and what the result says.
use smoking_data.Prelude.{
  ◌≡◌, refl, String, Bool, true, false, not, Option, none, some, List, [], ◌∷◌, arith, map,
  is_empty, all, any, if◌then◌else◌, Option-cases, inl, inr,
}
use smoking_data.Prelude.Result.{Result, ok, err}
use smoking_data.Runtime.AssetChain.{AssetNode, upstreams}
use smoking_data.Runtime.AssetChain.Run.{
  Status, blocked, UnchangedPolicy, run, skip, Receipt, digest, unreadable, RunError, host_error,
  truthy, same_digest, reuse_previous, executed_result, Outcome, payload, raised,
  AssetExecutionResult, PreviousAsset, ChainHost, is_down, find_result, blocked_upstreams,
  upstream_receipts, can_reuse, outcome_result, execute_asset,
}
use smoking_data.Runtime.AssetChain.Chain.{reuse_or_execute, decide_asset, run_asset}

abbrev pub is_blocked : Status → Bool
is_blocked blocked = true
is_blocked _ = false

abbrev pub has_result : List AssetExecutionResult → String → Bool
has_result completed x = elim (find_result x completed) [ none ↦ false | some r ↦ true ]

-- The asset has a result, and it is `failed` or `blocked`.
abbrev pub went_down : List AssetExecutionResult → String → Bool
went_down completed x = elim (find_result x completed) [ none ↦ false | some r ↦ is_down r.status ]

-- The list of blockers is there, and tells whether an upstream asset went down.
blocked_upstreams-some :
    (completed : List AssetExecutionResult) (us : List String)
    → all (has_result completed) us ≡ true
    → (bs : List String) × (blocked_upstreams completed us ≡ some bs)
      × (is_empty bs ≡ not (any (went_down completed) us))
unfolding blocked_upstreams
blocked_upstreams-some completed [] h = ([], refl, refl)
blocked_upstreams-some completed (u ∷ us) h = elim (Option-cases (find_result u completed)) [
  | inl missing ↦ ground arith
  | inr (r, found) ↦
      let (bs, e, full) = blocked_upstreams-some completed us (ground arith) in
      (if is_down r.status then u ∷ bs else bs, rw (found, e, blocked_upstreams) refl, ground arith)
]

upstream_receipts-some :
    (completed : List AssetExecutionResult) (inputs : List (String × String))
    → all (has_result completed) (map (λ (i : String × String). i.1) inputs) ≡ true
    → (rs : List (String × Option String)) × (upstream_receipts completed inputs ≡ some rs)
unfolding upstream_receipts
upstream_receipts-some completed [] h = ([], refl)
upstream_receipts-some completed ((port, u) ∷ inputs) h =
    elim (Option-cases (find_result u completed)) [
      | inl missing ↦ ground arith
      | inr (r, found) ↦
          let (rs, e) = upstream_receipts-some completed inputs (ground arith) in
          ((port, r.receipt_fingerprint) ∷ rs, rw (found, e, upstream_receipts) refl)
    ]

-- What a result says of its asset, `completed` being the results before it.
pub record IsResultOf (completed : List AssetExecutionResult) (node : AssetNode)
    (r : AssetExecutionResult) : Type 0 where
  pub named : r.asset_id ≡ node.asset_id
  pub blocks : is_blocked r.status ≡ any (went_down completed) (upstreams node)
  pub success : r.ok ≡ not (is_down r.status)

-- A call of the host for an asset raised: the fingerprint of its inputs, or a receipt.
pub data HostRaises (host : ChainHost) (node : AssetNode) : Type 0 where
  no_fingerprint :
      (w : host.World) (receipts : List (String × Option String))
      → host.fingerprint w node receipts ≡ none
      → HostRaises host node
  no_receipt :
      (w : host.World) (input : String) (paths : List String) (meta : Option String)
      (type message : String)
      → host.receipt w node input paths meta ≡ unreadable type message
      → HostRaises host node

-- Only the receipt of the outputs can make the test for reuse raise.
can_reuse-receipt :
    (host : ChainHost) (w : host.World) (node : AssetNode) (input : String) (prior : PreviousAsset)
    (policy : UnchangedPolicy)
    → can_reuse host w node input (some prior) policy ≡ none
    → (paths : List String) × (meta : Option String) × (previous : Option String) × (same_digest
          host previous
          (host.receipt w node input paths meta)
        ≡ none)
unfolding can_reuse reuse_previous
can_reuse-receipt host w node input prior run h = cc
can_reuse-receipt host w node input prior skip h = (
  prior.output_paths,
  if truthy prior.metadata_path then prior.metadata_path else none,
  prior.receipt_fingerprint,
  ground arith,
)

module _ (host : ChainHost) (policy : UnchangedPolicy)
    (previous : String → Option PreviousAsset) where
  receipt-IsResultOf :
      (w : host.World) (completed : List AssetExecutionResult) (node : AssetNode) (input : String)
      (paths : List String) (meta : Option String) (receipt : Receipt)
      → any (went_down completed) (upstreams node) ≡ false
      → IsResultOf completed node (executed_result host node input paths meta receipt)
  receipt-IsResultOf w completed node input paths meta (digest current) h = record {
    named = refl;
    blocks = rw h;
    success = refl;
  }
  receipt-IsResultOf w completed node input paths meta (unreadable type message) h = record {
    named = refl;
    blocks = rw h;
    success = refl;
  }

  outcome-IsResultOf :
      (w : host.World) (completed : List AssetExecutionResult) (node : AssetNode) (input : String)
      (o : Outcome)
      → any (went_down completed) (upstreams node) ≡ false
      → IsResultOf completed node (outcome_result host w node input o)
  outcome-IsResultOf w completed node input (payload true paths meta type message) h =
      receipt-IsResultOf w completed node input paths _ _ h
  outcome-IsResultOf w completed node input (payload false paths meta type message) h = record {
    named = refl;
    blocks = rw h;
    success = refl;
  }
  outcome-IsResultOf w completed node input (raised type message) h = record {
    named = refl;
    blocks = rw h;
    success = refl;
  }

  execute_asset-IsResultOf :
      (w : host.World) (completed : List AssetExecutionResult) (node : AssetNode) (input : String)
      → any (went_down completed) (upstreams node) ≡ false
      → IsResultOf completed node (execute_asset host w node input).0
  unfolding execute_asset
  execute_asset-IsResultOf w completed node input h =
      let (outcome, w') = host.execute w node in
      outcome-IsResultOf w' completed node input outcome h

  -- The step of one asset gives a result that fits the results before it, or the host raised in it.
  pub data IsStep (completed : List AssetExecutionResult) (node : AssetNode)
      : Result RunError (AssetExecutionResult × host.World) → Type 0 where
    raises : HostRaises host node → IsStep completed node (err host_error)
    gives :
        (r : AssetExecutionResult) (w : host.World)
        → IsResultOf completed node r
        → IsStep completed node (ok (r, w))

  same_digest-raises :
      (previous : Option String) (receipt : Receipt)
      → same_digest host previous receipt ≡ none
      → (type : String) × (message : String) × (receipt ≡ unreadable type message)
  same_digest-raises previous (digest current) h = cc
  same_digest-raises previous (unreadable type message) h = (type, message, refl)

  can_reuse-raises :
      (w : host.World) (node : AssetNode) (input : String) (prior : PreviousAsset)
      → can_reuse host w node input (some prior) policy ≡ none
      → HostRaises host node
  can_reuse-raises w node input prior h =
      let (paths, meta, previous, e) = can_reuse-receipt host w node input prior policy h in
      let (type, message, found) =
        same_digest-raises previous (host.receipt w node input paths meta) e in
      no_receipt w input paths meta type message found

  reuse_or_execute-IsStep :
      (w : host.World) (completed : List AssetExecutionResult) (node : AssetNode) (input : String)
      (prior : PreviousAsset) (again : Option Bool)
      → any (went_down completed) (upstreams node) ≡ false
      → (again ≡ none → HostRaises host node)
      → IsStep completed node (reuse_or_execute host policy previous w node input prior again)
  reuse_or_execute-IsStep w completed node input prior none h k = raises (k refl)
  reuse_or_execute-IsStep w completed node input prior (some true) h k =
      gives _ w (record { named = refl; blocks = rw h; success = refl })
  reuse_or_execute-IsStep w completed node input prior (some false) h k =
      gives _ _ (execute_asset-IsResultOf w completed node input h)

  decide_asset-IsStep :
      (w : host.World) (completed : List AssetExecutionResult) (node : AssetNode) (input : String)
      (bs : List String) (prior : Option PreviousAsset)
      → is_empty bs ≡ not (any (went_down completed) (upstreams node))
      → IsStep completed node (decide_asset host policy previous w node input bs prior)
  decide_asset-IsStep w completed node input (u ∷ us) prior h = gives _ w (ground arith)
  decide_asset-IsStep w completed node input [] none h =
      gives _ _ (execute_asset-IsResultOf w completed node input (ground arith))
  decide_asset-IsStep w completed node input [] (some prior) h =
      reuse_or_execute-IsStep w completed node input prior _ (ground arith)
        (can_reuse-raises w node input prior)

  pub run_asset-IsStep :
      (w : host.World) (completed : List AssetExecutionResult) (node : AssetNode)
      → all (has_result completed) (upstreams node) ≡ true
      → IsStep completed node (run_asset host policy previous w completed node)
  unfolding run_asset
  run_asset-IsStep w completed node h =
      let (bs, e, full) = blocked_upstreams-some completed (upstreams node) h in
      let (rs, e') = upstream_receipts-some completed node.inputs h in
      elim (Option-cases (host.fingerprint w node rs)) [
        | inl missing ↦ rw (e, e', run_asset, missing) (raises (no_fingerprint w rs missing))
        | inr (input, found) ↦
            rw (e, e', run_asset, found)
              (decide_asset-IsStep w completed node input bs (previous node.asset_id) full)
      ]
