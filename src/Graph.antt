-- ===== src/Graph.antt =====
-- Kahn's topological sort, as src/smoking_data/runtime/asset_chain.py and
-- src/smoking_data/core/pipeline_dag.py write it. The two differ only in when they sort the list of
-- ready nodes, which is the parameter `ReadyQueue` here.
pub mod Invariant
pub mod Queues
pub mod Round
pub mod Place
use smoking_data.Prelude.{
  ℕ, zero, suc, ◌≡◌, String, Bool, true, false, not, ◌&&◌, Option, none, some, List, [], ◌∷◌, ◌++◌,
  leb, length, is_empty, keep, if◌then◌else◌, str_eq,
}
use smoking_data.Prelude.Names.{contains, remove_name, unique}
use smoking_data.Prelude.Sort.{sort}

-- `push` is what happens to `ready` when a node gets ready, and `settle` what happens to it after
-- all nodes have been visited.
pub record ReadyQueue : Type 0 where
  pub push : List String → String → List String
  pub settle : List String → List String
  pub contains-push :
      (x : String) (r : List String) (c : String) → contains x (push r c) ≡ contains x (c ∷ r)
  pub unique-push : (r : List String) (c : String) → unique (push r c) ≡ unique (c ∷ r)
  pub contains-settle : (x : String) (r : List String) → contains x (settle r) ≡ contains x r
  pub unique-settle : (r : List String) → unique (settle r) ≡ unique r

-- `remaining[k] = v`, for a dictionary as a function.
abbrev pub update : (String → List String) → String → List String → String → List String
update f k v x = if str_eq k x then v else f x

pub record Sweep : Type 0 where
  pub remaining : String → List String
  pub ready : List String

abbrev pub by_position : (String → ℕ) → String → String → Bool
by_position position a b = leb (position a) (position b)

module _ (q : ReadyQueue) (current : String) (result : List String) where
  -- The body of `for candidate in ...`.
  unfoldable pub visit : Sweep → String → Sweep
  visit s candidate =
      let left = remove_name current (s.remaining candidate) in
      if contains current (s.remaining candidate)
      then (record {
        remaining = update s.remaining candidate left;
        ready =
            if is_empty left && not (contains candidate result) && not (contains candidate s.ready)
            then q.push s.ready candidate
            else s.ready;
      })
      else s

  unfoldable pub visit_all : Sweep → List String → Sweep
  visit_all s [] = s
  visit_all s (c ∷ cs) = visit_all (visit s c) cs

module _ (q : ReadyQueue) (keys : List String) (position : String → ℕ) where
  -- The `while ready` loop; `none` means that the fuel ran out.
  unfoldable pub rounds :
      ℕ → (String → List String) → List String → List String → Option (List String)
  rounds zero remaining ready result = none
  rounds (suc fuel) remaining [] result = some result
  rounds (suc fuel) remaining (current ∷ rest) result =
      let s =
        visit_all q current (result ++ current ∷ [])
          (record { remaining = remaining; ready = rest }) (sort (by_position position) keys) in
      rounds fuel s.remaining (q.settle s.ready) (result ++ current ∷ [])

  -- The nodes that the sort places, from the dependencies of each node.
  unfoldable pub place : (String → List String) → Option (List String)
  place dependencies =
      rounds (suc (length keys)) dependencies
        (sort (by_position position) (keep (λ k. is_empty (dependencies k)) keys)) []
