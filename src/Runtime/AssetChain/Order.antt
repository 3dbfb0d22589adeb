-- ===== src/Runtime/AssetChain/Order.antt =====
-- The order that `load_asset_chain` gives the assets, and its cycle report.
use smoking_data.Prelude.{
  ◌≡◌, ◌≢◌, refl, ap, inl, inr, String, true, false, not, List, [], ◌∷◌, arith, ◌==◌, ==_iff,
  Bool-cases, length, keep, all, any, if◌then◌else◌, eq_iff,
}
use smoking_data.Prelude.Names.{contains, unique}
use smoking_data.Prelude.Names.Laws.{contains-keep, contains-union, length-unique-le}
use smoking_data.Prelude.Result.{ok, err}
use smoking_data.Graph.Invariant.{IsOrdered}
use smoking_data.Graph.Place.{IsPlacing, place-IsPlacing, placed-of_length}
use smoking_data.Graph.Queues.{index_of, sort_after_loop}
use smoking_data.Runtime.AssetChain.{
  AssetNode, cycle, asset_ids, upstreams, dependencies, check_distinct, check_inputs, check_nodes,
  topological_order,
}

pub distinct-unique :
    (seen : List String) (nodes : List AssetNode)
    → check_distinct seen nodes ≡ ok tt
    → (unique (asset_ids nodes) ≡ true)
      × ((x : String) → contains x (asset_ids nodes) ≡ true → contains x seen ≡ false)
unfolding check_distinct
distinct-unique seen [] h = (refl, λ x p. cc)
distinct-unique seen (n ∷ nodes) h =
    let (u, apart) = distinct-unique (n.asset_id ∷ seen) nodes (ground arith) in
    (
      ground (arith, apart n.asset_id, eq_iff n.asset_id n.asset_id),
      λ x p. ground (arith, apart x, eq_iff x n.asset_id),
    )

pub check_inputs-known :
    (ids : List String) (asset_id : String) (us : List String) (d : String)
    → check_inputs ids asset_id us ≡ ok tt
    → contains d us ≡ true
    → contains d ids ≡ true
unfolding check_inputs
check_inputs-known ids asset_id [] d h p = cc
check_inputs-known ids asset_id (u ∷ us) d h p =
    ground (arith, check_inputs-known ids asset_id us d, eq_iff d u)

-- Every upstream of an accepted graph is one of its assets.
pub check_nodes-known :
    (ids : List String) (nodes : List AssetNode) (x d : String)
    → check_nodes ids nodes ≡ ok tt
    → contains d (dependencies nodes x) ≡ true
    → contains d ids ≡ true
unfolding check_nodes dependencies
check_nodes-known ids [] x d h p = cc
check_nodes-known ids (n ∷ nodes) x d h p = ground (
  arith,
  check_inputs-known ids n.asset_id (upstreams n) d,
  check_nodes-known ids nodes x d,
  contains-union d [] (upstreams n),
)

-- The order holds each asset once, every asset behind all of its upstream assets.
pub record IsExecutionOrder (nodes : List AssetNode) (order : List String) : Type 0 where
  pub same : (x : String) → contains x order ≡ contains x (asset_ids nodes)
  pub distinct : unique order ≡ true
  pub ordered : IsOrdered (dependencies nodes) [] order

-- A set of assets, not empty, each of which waits for another asset of the set.
pub record IsBlockedSet (nodes : List AssetNode) (blocked : List String) : Type 0 where
  pub solid : blocked ≢ []
  pub known : (x : String) → contains x blocked ≡ true → contains x (asset_ids nodes) ≡ true
  pub waits :
      (x : String)
      → contains x blocked ≡ true
      → any (λ d. contains d blocked) (dependencies nodes x) ≡ true

abbrev pub left_over : List AssetNode → List String → List String
left_over nodes order = keep (λ x. not (contains x order)) (asset_ids nodes)

waits-left_over :
    (ids order ds : List String)
    → ((d : String) → contains d ds ≡ true → contains d ids ≡ true)
    → all (λ d. contains d order) ds ≡ false
    → any (λ d. contains d (keep (λ x. not (contains x order)) ids)) ds ≡ true
waits-left_over ids order [] known h = cc
waits-left_over ids order (d ∷ ds) known h = ground (
  arith,
  known d,
  eq_iff d d,
  contains-keep (λ x. not (contains x order)) d ids,
  waits-left_over ids order ds (λ e he. known e (ground arith)),
)

module _ (nodes : List AssetNode) (distinct : unique (asset_ids nodes) ≡ true) where
  abbrev pub Placing : List String → Type 0
  Placing =
      IsPlacing (sort_after_loop (index_of (asset_ids nodes))) (asset_ids nodes)
        (index_of (asset_ids nodes)) (dependencies nodes)

  pub topological_order-cases :
      (order : List String) × Placing order
      × (topological_order nodes ≡ (
          if length order == length (asset_ids nodes)
          then ok order
          else err (cycle (left_over nodes order))))
  unfolding topological_order
  topological_order-cases =
      let ids = asset_ids nodes in
      let (order, e, p) =
        place-IsPlacing (sort_after_loop (index_of ids)) ids (index_of ids) (dependencies nodes)
          distinct in
      (order, p, rw e refl)

  pub Placing-IsExecutionOrder :
      (order : List String)
      → Placing order
      → length order ≡ length (asset_ids nodes)
      → IsExecutionOrder nodes order
  Placing-IsExecutionOrder order p e = record {
    same = λ x. ground (
      arith,
      p.placed x,
      placed-of_length (sort_after_loop (index_of (asset_ids nodes))) (asset_ids nodes)
          (index_of (asset_ids nodes)) (dependencies nodes) order x p e,
    );
    distinct = p.distinct;
    ordered = p.ordered;
  }

  pub topological_order-IsExecutionOrder :
      (order : List String) → topological_order nodes ≡ ok order → IsExecutionOrder nodes order
  topological_order-IsExecutionOrder order h =
      let (placed, p, e) = topological_order-cases in
      elim (Bool-cases (length placed == length (asset_ids nodes))) [
        | inl all_placed ↦
            let same : placed ≡ order = ground arith in
            rw (← same)
              (Placing-IsExecutionOrder placed p ((==_iff (length placed) _).0 all_placed))
        | inr some_left ↦ ground arith
      ]

  module _
      (known : (x d : String)
        → contains d (dependencies nodes x) ≡ true
        → contains d (asset_ids nodes) ≡ true) where
    left_over-solid :
        (order : List String)
        → Placing order
        → length order ≢ length (asset_ids nodes)
        → left_over nodes order ≢ []
    left_over-solid order p e none_left = e (
        omega (
          arith,
          length-unique-le order (asset_ids nodes) p.distinct (λ x h. ground (arith, p.placed x)),
          length-unique-le (asset_ids nodes) order distinct λ x h. ground (
            arith,
            ap (contains x) none_left,
            contains-keep (λ y. not (contains y order)) x (asset_ids nodes),
          ),
        ))

    left_over-IsBlockedSet :
        (order : List String)
        → Placing order
        → length order ≢ length (asset_ids nodes)
        → IsBlockedSet nodes (left_over nodes order)
    left_over-IsBlockedSet order p e = record {
      solid = left_over-solid order p e;
      known =
          λ x h. ground (arith, contains-keep (λ y. not (contains y order)) x (asset_ids nodes));
      waits = λ x h. waits-left_over (asset_ids nodes) order (dependencies nodes x) (known x) (
          ground
            (arith, p.placed x, contains-keep (λ y. not (contains y order)) x (asset_ids nodes)));
    }

    pub topological_order-IsBlockedSet :
        (blocked : List String)
        → topological_order nodes ≡ err (cycle blocked)
        → IsBlockedSet nodes blocked
    topological_order-IsBlockedSet blocked h =
        let (placed, p, e) = topological_order-cases in
        elim (Bool-cases (length placed == length (asset_ids nodes))) [
          | inl all_placed ↦ ground arith
          | inr some_left ↦
              let same : left_over nodes placed ≡ blocked = ground arith in
              rw (← same) (left_over-IsBlockedSet placed p (ground arith))
        ]
