-- ===== src/Planners/Cohorts/Counts.antt =====
-- How often a path stands in lists of sources, slices and cohorts.
use smoking_data.Prelude.{
  ℕ, ◌+◌, ◌≡◌, refl, sym, ◌∙◌, String, Bool, true, false, not, List, [], ◌∷◌, ◌++◌, arith, str_eq,
  eq_iff, sum_by, if◌then◌else◌, keep,
}
use smoking_data.Prelude.Names.{contains, unique, union, add_name}
use smoking_data.Prelude.Names.Laws.{unique-snoc}
use smoking_data.Prelude.Sort.{sort, insert_sorted}
use smoking_data.Planners.Cohorts.{Source, paths_of}

abbrev pub count : String → List String → ℕ
count x [] = 0
count x (y ∷ ys) = (if str_eq x y then 1 else 0) + count x ys

-- How many of the sources have the path.
abbrev pub held : String → List Source → ℕ
held x sources = count x (paths_of sources)

module _ {ℓ} {A : Type ℓ} where
  pub sum_by-congr : (f g : A → ℕ) (xs : List A) → ((x : A) → f x ≡ g x) → sum_by f xs ≡ sum_by g xs
  sum_by-congr f g [] h = refl
  sum_by-congr f g (x ∷ xs) h = omega (arith, h x, sum_by-congr f g xs h)

  pub sum_by_plus :
      (f g : A → ℕ) (xs : List A) → sum_by (λ x. f x + g x) xs ≡ sum_by f xs + sum_by g xs
  sum_by_plus f g [] = omega arith
  sum_by_plus f g (x ∷ xs) = omega (arith, sum_by_plus f g xs)

  sum_by-insert_sorted :
      (before : A → A → Bool) (f : A → ℕ) (x : A) (ys : List A)
      → sum_by f (insert_sorted before x ys) ≡ f x + sum_by f ys
  sum_by-insert_sorted before f x [] = refl
  sum_by-insert_sorted before f x (y ∷ ys) = ground (arith, sum_by-insert_sorted before f x ys)

  pub sum_by-sort :
      (before : A → A → Bool) (f : A → ℕ) (xs : List A) → sum_by f (sort before xs) ≡ sum_by f xs
  sum_by-sort before f [] = refl
  sum_by-sort before f (x ∷ xs) =
      omega (arith, sum_by-insert_sorted before f x (sort before xs), sum_by-sort before f xs)

  pub sum_by_zero : (xs : List A) → sum_by (λ x. 0) xs ≡ 0
  sum_by_zero [] = refl
  sum_by_zero (x ∷ xs) = omega (arith, sum_by_zero xs)

pub count-append : (x : String) (xs ys : List String) → count x (xs ++ ys) ≡ count x xs + count x ys
count-append x [] ys = omega arith
count-append x (y ∷ xs) ys = omega (arith, count-append x xs ys)

pub count-absent : (x : String) (xs : List String) → contains x xs ≡ false → count x xs ≡ 0
count-absent x [] h = refl
count-absent x (y ∷ xs) h = ground (arith, count-absent x xs)

-- In a list without repetition a name stands once or never.
pub count-unique :
    (x : String) (xs : List String)
    → unique xs ≡ true
    → count x xs ≡ (if contains x xs then 1 else 0)
count-unique x [] u = refl
count-unique x (y ∷ xs) u = ground (arith, count-unique x xs, count-absent x xs, eq_iff x y)

pub unique-union : (s xs : List String) → unique s ≡ true → unique (union s xs) ≡ true
unique-union s [] h = h
unique-union s (x ∷ xs) h = unique-union (add_name x s) xs (ground (arith, unique-snoc s x))

pub held-append : (x : String) (xs ys : List Source) → held x (xs ++ ys) ≡ held x xs + held x ys
held-append x [] ys = omega arith
held-append x (y ∷ xs) ys = omega (arith, held-append x xs ys)

pub held_sum :
    (x : String) (sources : List Source)
    → held x sources ≡ sum_by (λ (s : Source). if str_eq x s.path then 1 else 0) sources
held_sum x [] = refl
held_sum x (s ∷ sources) = omega (arith, held_sum x sources)

pub held-sort :
    (before : Source → Source → Bool) (x : String) (sources : List Source)
    → held x (sort before sources) ≡ held x sources
held-sort before x sources =
    held_sum x (sort before sources)
    ∙ sum_by-sort before (λ (s : Source). if str_eq x s.path then 1 else 0) sources
    ∙ sym (held_sum x sources)

-- The sources whose paths are not among some names.
pub held-keep :
    (x : String) (names : List String) (sources : List Source)
    → held x (keep (λ s. not (contains s.path names)) sources)
      ≡ (if contains x names then 0 else held x sources)
held-keep x names [] = ground arith
held-keep x names (s ∷ sources) = ground (arith, held-keep x names sources, eq_iff x s.path)
