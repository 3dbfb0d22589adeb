-- ===== src/Runtime/AssetChain/Chain/Totality.antt =====
-- A run in an accepted order never misses a result, and its history explains each status.
use smoking_data.Prelude.{
  ◌≡◌, refl, sym, ◌∙◌, subst, String, Bool, true, not, ◌||◌, Option, some, List, [], ◌∷◌, ◌++◌,
  append_assoc, append-nil, arith, map, all, str_eq, eq_iff, Bool-cases, inl, inr,
}
use smoking_data.Prelude.Names.{contains, union}
use smoking_data.Prelude.Names.Laws.{all-union, contains-append}
use smoking_data.Graph.Invariant.{IsOrdered}
use smoking_data.Runtime.AssetChain.{AssetNode, asset_ids, upstreams, dependencies}
use smoking_data.Runtime.AssetChain.Run.{
  is_down, UnchangedPolicy, AssetExecutionResult, PreviousAsset, ChainHost, RunError, host_error,
  find_node, find_result,
}
use smoking_data.Runtime.AssetChain.Chain.{ChainRun, run_assets}
use smoking_data.Prelude.Result.{Result, ok, err}
use smoking_data.Runtime.AssetChain.Chain.Steps.{
  has_result, IsResultOf, HostRaises, IsStep, raises, gives, run_asset-IsStep,
}

find_node-some :
    (x : String) (nodes : List AssetNode)
    → contains x (asset_ids nodes) ≡ true
    → (n : AssetNode) × (find_node x nodes ≡ some n)
      × (n.asset_id ≡ x)
      × (dependencies nodes x ≡ union [] (upstreams n))
unfolding find_node dependencies
find_node-some x [] h = cc
find_node-some x (n ∷ nodes) h = elim (Bool-cases (str_eq n.asset_id x)) [
  | inl here ↦ (n, rw here refl, (eq_iff n.asset_id x).0 here, rw here refl)
  | inr there ↦
      let (m, e, named, deps) =
        find_node-some x nodes (ground (arith, eq_iff x n.asset_id, eq_iff n.asset_id x)) in
      (m, rw there e, named, rw there deps)
]

has_result-snoc :
    (completed : List AssetExecutionResult) (r : AssetExecutionResult) (x : String)
    → has_result (completed ++ r ∷ []) x ≡ (has_result completed x || str_eq r.asset_id x)
unfolding find_result
has_result-snoc [] r x = ground arith
has_result-snoc (c ∷ completed) r x = ground (arith, has_result-snoc completed r x)

all-same :
    (p q : String → Bool) (xs : List String) → ((x : String) → p x ≡ q x) → all p xs ≡ all q xs
all-same p q [] h = refl
all-same p q (x ∷ xs) h = ground (arith, h x, all-same p q xs h)

-- Each result is that of an asset of the chain, and fits the results before it.
abbrev pub IsHistory :
    List AssetNode → List AssetExecutionResult → List AssetExecutionResult → Type 0
IsHistory nodes seen [] = Unit
IsHistory nodes seen (r ∷ rs) =
    ((n : AssetNode) × (find_node r.asset_id nodes ≡ some n) × IsResultOf seen n r)
    × IsHistory nodes (seen ++ r ∷ []) rs

abbrev pub result_ids : List AssetExecutionResult → List String
result_ids rs = map (λ (r : AssetExecutionResult). r.asset_id) rs

module _ (host : ChainHost) (policy : UnchangedPolicy) (previous : String → Option PreviousAsset)
    (nodes : List AssetNode) where
  -- The rest of a run adds a result for each asset of the rest of the order, or the host raised in it.
  pub data IsRest (completed : List AssetExecutionResult) (order : List String)
      : Result RunError (List AssetExecutionResult × host.World) → Type 0 where
    stopped :
        (n : AssetNode)
        → find_node n.asset_id nodes ≡ some n
        → HostRaises host n
        → IsRest completed order (err host_error)
    finished :
        (all_results results : List AssetExecutionResult) (w : host.World)
        → all_results ≡ completed ++ results
        → result_ids results ≡ order
        → IsHistory nodes completed results
        → IsRest completed order (ok (all_results, w))

  cons-IsRest :
      (completed : List AssetExecutionResult) (r : AssetExecutionResult) (n : AssetNode)
      (x : String) (order : List String)
      (rest : Result RunError (List AssetExecutionResult × host.World))
      → find_node x nodes ≡ some n
      → r.asset_id ≡ x
      → IsResultOf completed n r
      → IsRest (completed ++ r ∷ []) order rest
      → IsRest completed (x ∷ order) rest
  cons-IsRest completed r n x order _ found named fits (stopped m is_there h) = stopped m is_there h
  cons-IsRest completed r n x order _ found named fits
        (finished all_results results w e ids history) =
      finished all_results (r ∷ results) w (rw append_assoc at e) (λ i. named i ∷ ids i)
        ((n, subst (λ y. find_node y nodes ≡ some n) (sym named) found, fits), history)

  step-IsRest :
      (completed : List AssetExecutionResult) (n : AssetNode) (x : String) (order : List String)
      (step : Result RunError (AssetExecutionResult × host.World))
      → find_node x nodes ≡ some n
      → n.asset_id ≡ x
      → IsStep host policy previous completed n step
      → ((r : AssetExecutionResult) (w : host.World)
          → r.asset_id ≡ x
          → IsRest
              (completed ++ r ∷ [])
              order
              (run_assets host policy previous nodes w (completed ++ r ∷ []) order))
      → IsRest completed (x ∷ order) (elim step [
        | err e ↦ err e
        | ok (r, w) ↦ run_assets host policy previous nodes w (completed ++ r ∷ []) order
      ])
  step-IsRest completed n x order _ found named (raises h) later =
      stopped n (subst (λ y. find_node y nodes ≡ some n) (sym named) found) h
  step-IsRest completed n x order _ found named (gives r w fits) later =
      cons-IsRest completed r n x order _ found (fits.named ∙ named) fits
        (later r w (fits.named ∙ named))

  pub run_assets-IsRest :
      (w : host.World) (completed : List AssetExecutionResult) (seen order : List String)
      → ((x : String) → has_result completed x ≡ contains x seen)
      → IsOrdered (dependencies nodes) seen order
      → all (λ x. contains x (asset_ids nodes)) order ≡ true
      → IsRest completed order (run_assets host policy previous nodes w completed order)
  unfolding run_assets
  run_assets-IsRest w completed seen [] same ordered known =
      finished completed [] w (sym (append-nil completed)) refl tt
  run_assets-IsRest w completed seen (x ∷ order) same ordered known =
      let (n, found, named, deps) = find_node-some x nodes (ground arith) in
      let ready = (all-union (λ d. contains d seen) [] (upstreams n) (rw (← deps) ordered.0)).1 in
      let step =
        run_asset-IsStep host policy previous w completed n
          (rw (all-same (has_result completed) (λ d. contains d seen) (upstreams n) same) ready) in
      rw (run_assets, found)
        (step-IsRest completed n x order _ found named step (λ r w' is_named.
          run_assets-IsRest w' (completed ++ r ∷ []) (seen ++ x ∷ []) order
            (λ y. ground (
              arith,
              has_result-snoc completed r y,
              same y,
              contains-append y seen (x ∷ []),
              is_named,
              eq_iff y x,
              eq_iff x y,
            ))
            ordered.1 (ground arith)))

abbrev pub is_up : AssetExecutionResult → Bool
is_up r = not (is_down r.status)

-- What a run ends in: the host raised in it, or it has one result for each asset, in the order, which fits
-- the results before it, and is ok when no asset failed or was blocked.
pub data IsRun (host : ChainHost) (nodes : List AssetNode) (order : List String)
    : Result RunError (ChainRun host) → Type 0 where
  raised :
      (n : AssetNode)
      → find_node n.asset_id nodes ≡ some n
      → HostRaises host n
      → IsRun host nodes order (err host_error)
  returned :
      (run : ChainRun host)
      → result_ids run.assets ≡ order
      → IsHistory nodes [] run.assets
      → run.ok ≡ all is_up run.assets
      → IsRun host nodes order (ok run)
