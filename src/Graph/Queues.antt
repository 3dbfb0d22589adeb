-- ===== src/Graph/Queues.antt =====
-- The two ways to keep the ready nodes sorted, and the positions of nodes.
use smoking_data.Prelude.{
  ℕ, suc, ◌≡◌, refl, String, List, [], ◌∷◌, ◌++◌, arith, if◌then◌else◌, str_eq,
}
use smoking_data.Prelude.Names.{contains, unique}
use smoking_data.Prelude.Names.Laws.{contains-append, contains-sort, unique-sort, unique-snoc}
use smoking_data.Prelude.Sort.{sort}
use smoking_data.Graph.{ReadyQueue, by_position}

-- `positions.get`, for the positions of distinct names.
unfoldable pub index_of : List String → String → ℕ
index_of [] x = 0
index_of (y ∷ ys) x = let later = suc (index_of ys x) in if str_eq y x then 0 else later

pub contains-snoc :
    (x : String) (r : List String) (c : String) → contains x (r ++ c ∷ []) ≡ contains x (c ∷ r)
contains-snoc x r c = ground (arith, contains-append x r (c ∷ []))

module _ (position : String → ℕ) where
  pub contains-sort_snoc :
      (x : String) (r : List String) (c : String)
      → contains x (sort (by_position position) (r ++ c ∷ [])) ≡ contains x (c ∷ r)
  contains-sort_snoc x r c = rw contains-sort (contains-snoc x r c)

  pub unique-sort_snoc :
      (r : List String) (c : String)
      → unique (sort (by_position position) (r ++ c ∷ [])) ≡ unique (c ∷ r)
  unique-sort_snoc r c = rw unique-sort (unique-snoc r c)

  -- asset_chain.py: append, and sort once after the `for` loop.
  abbrev pub sort_after_loop : ReadyQueue
  sort_after_loop = record {
    push = λ r c. r ++ c ∷ [];
    settle = sort (by_position position);
    contains-push = contains-snoc;
    unique-push = unique-snoc;
    contains-settle = λ x r. contains-sort (by_position position) x r;
    unique-settle = unique-sort (by_position position);
  }

  -- pipeline_dag.py: sort after each append.
  abbrev pub sort_each_time : ReadyQueue
  sort_each_time = record {
    push = λ r c. sort (by_position position) (r ++ c ∷ []);
    settle = λ r. r;
    contains-push = contains-sort_snoc;
    unique-push = unique-sort_snoc;
    contains-settle = λ x r. refl;
    unique-settle = λ r. refl;
  }
