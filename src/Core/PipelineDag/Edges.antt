-- ===== src/Core/PipelineDag/Edges.antt =====
-- The edges and the order of a pipeline that src/smoking_data/core/pipeline_dag.py accepts.
use smoking_data.Prelude.{
  ◌≡◌, ◌≢◌, refl, subst, String, Bool, true, false, Option, none, some, List, [], ◌∷◌, arith,
  Bool-cases, inl, inr, eq_iff, length, All, ◌==◌, ==_iff,
}
use smoking_data.Prelude.Names.{contains, unique}
use smoking_data.Prelude.Result.{Result, ok, err, ◌>>=◌, ◌>>◌}
use smoking_data.Graph.Invariant.{IsOrdered}
use smoking_data.Graph.Place.{place-IsPlacing, placed-of_length}
use smoking_data.Graph.Queues.{index_of, sort_each_time}
use smoking_data.Core.PipelineDag.{
  PipelineOperation, DagError, out_of_fuel, Inputs, refuse, aliases, inputs_of, kind_of_alias,
  is_compatible, check_aliases, check_artifact, check_edge, check_edges, check_mapping, check_ports,
  check_kinds, no_data_input, check_operations, dag_dependencies, order_or_error,
  stable_topological_sort,
}

pub bind-ok :
    {E A B : Type 0} (m : Result E A) (f : A → Result E B) (b : B)
    → m >>= f ≡ ok b
    → (a : A) × (m ≡ ok a) × (f a ≡ ok b)
bind-ok (ok a) f b h = (a, refl, h)
bind-ok (err e) f b h = cc

pub refuse-ok : (b : Bool) (e : DagError) (u : Unit) → refuse b e ≡ ok u → b ≡ false
refuse-ok true e u h = cc
refuse-ok false e u h = refl

pub check_aliases-unique :
    (seen : List String) (nodes : List PipelineOperation) (u : Unit)
    → check_aliases seen nodes ≡ ok u
    → (unique (aliases nodes) ≡ true)
      × ((x : String) → contains x (aliases nodes) ≡ true → contains x seen ≡ false)
unfolding check_aliases
check_aliases-unique seen [] u h = (refl, λ x k. cc)
check_aliases-unique seen (n ∷ nodes) u h =
    let (rest, apart) = check_aliases-unique (n.alias ∷ seen) nodes u (ground arith) in
    (
      ground (arith, apart n.alias, eq_iff n.alias n.alias),
      λ x k. ground (arith, apart x, eq_iff x n.alias),
    )

-- The upstream operation of an input exists, and its artifact does for the port.
abbrev pub IsFed : List PipelineOperation → PipelineOperation → String × String → Type 0
IsFed nodes n i =
    (kind : String) × (kind_of_alias nodes i.1 ≡ some kind) × (is_compatible n.op i.0 kind ≡ true)

check_artifact-ok :
    (kind port : String) (o : Option String) (u : Unit)
    → check_artifact kind port o ≡ ok u
    → (k : String) × (o ≡ some k) × (is_compatible kind port k ≡ true)
check_artifact-ok kind port none u h = cc
check_artifact-ok kind port (some k) u h = (k, refl, ground arith)

check_edges-IsFed :
    (nodes : List PipelineOperation) (n : PipelineOperation) (inputs : Inputs) (u : Unit)
    → check_edges nodes n inputs ≡ ok u
    → All (IsFed nodes n) inputs
unfolding check_edges
check_edges-IsFed nodes n [] u h = tt
check_edges-IsFed nodes n (i ∷ inputs) u h =
    let (v, here, later) =
      bind-ok (check_edge nodes n i.0 i.1) (λ _. check_edges nodes n inputs) u h in
    let w : check_artifact n.op i.0 (kind_of_alias nodes i.1) ≡ ok v = ground arith in
    (
      check_artifact-ok n.op i.0 (kind_of_alias nodes i.1) v w,
      check_edges-IsFed nodes n inputs u later,
    )

pub check_operations-IsFed :
    (nodes rest : List PipelineOperation) (u : Unit)
    → check_operations nodes rest ≡ ok u
    → All (λ (n : PipelineOperation). All (IsFed nodes n) (inputs_of n)) rest
unfolding check_operations
check_operations-IsFed nodes [] u h = tt
check_operations-IsFed nodes (n ∷ rest) u h =
    let later = check_operations nodes rest in
    let edges = check_edges nodes n (inputs_of n) in
    let kinds = check_kinds nodes n.op (inputs_of n) in
    let (a, _, ha) =
      bind-ok (check_mapping (no_data_input n.op) n.inputs)
        (λ _. check_ports n.op (inputs_of n) >> (kinds >> (edges >> later))) u h in
    let (b, _, hb) =
      bind-ok (check_ports n.op (inputs_of n)) (λ _. kinds >> (edges >> later)) u ha in
    let (c, _, hc) = bind-ok kinds (λ _. edges >> later) u hb in
    let (d, hd, he) = bind-ok edges (λ _. later) u hc in
    (check_edges-IsFed nodes n (inputs_of n) d hd, check_operations-IsFed nodes rest u he)

-- The order of an accepted graph.
pub record IsSorted (nodes : List PipelineOperation) (order : List String) : Type 0 where
  pub same : (x : String) → contains x order ≡ contains x (aliases nodes)
  pub distinct : unique order ≡ true
  pub ordered : IsOrdered (dag_dependencies nodes) [] order

order_or_error-ok :
    (ids order placed : List String)
    → order_or_error ids (some placed) ≡ ok order
    → (placed ≡ order) × (length placed ≡ length ids)
order_or_error-ok ids order placed h = elim (Bool-cases (length placed == length ids)) [
  | inl all_placed ↦ (cc (rw all_placed at h), (==_iff (length placed) (length ids)).0 all_placed)
  | inr few ↦ absurd (cc (rw few at h))
]

pub sort-IsSorted :
    (nodes : List PipelineOperation) (order : List String)
    → unique (aliases nodes) ≡ true
    → stable_topological_sort nodes ≡ ok order
    → IsSorted nodes order
unfolding stable_topological_sort
sort-IsSorted nodes order u h =
    let ids = aliases nodes in
    let q = sort_each_time (index_of ids) in
    let (placed, e, p) = place-IsPlacing q ids (index_of ids) (dag_dependencies nodes) u in
    let (same, size) = order_or_error-ok ids order placed (rw e at h) in
    subst (IsSorted nodes) same (record {
      same = λ x. ground (
        arith,
        p.placed x,
        placed-of_length q ids (index_of ids) (dag_dependencies nodes) placed x p size,
      );
      distinct = p.distinct;
      ordered = p.ordered;
    })

pub sort-ne-out_of_fuel :
    (nodes : List PipelineOperation)
    → unique (aliases nodes) ≡ true
    → stable_topological_sort nodes ≢ err out_of_fuel
unfolding stable_topological_sort
sort-ne-out_of_fuel nodes u h =
    let ids = aliases nodes in
    let (placed, e, p) =
      place-IsPlacing (sort_each_time (index_of ids)) ids (index_of ids) (dag_dependencies nodes)
        u in
    ground (arith, e)
