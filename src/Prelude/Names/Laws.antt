-- ===== src/Prelude/Names/Laws.antt =====
-- Membership, sizes and repetitions in lists of names.
use smoking_data.Prelude.Sort.{sort, insert_sorted}
use Prim.Native.String.{String}
use Prim.Native.Nat.{suc, ◌≤◌}
use mathlib.Core.Path.{◌≡◌, refl, sym, subst}
use mathlib.Core.Logic.{inl, inr}
use mathlib.Core.Bool.{Bool, true, false, not, ◌&&◌, ◌||◌}
use mathlib.Core.List.{List, [], ◌∷◌, ◌++◌}
use text.Mathlib.Text.{◌==◌}
use text.Mathlib.TextEquality.{eq_iff}
use text.Mathlib.TextPositions.{eq_refl}
use native.Mathlib.Omega.{arith}
use smoking_data.Prelude.Tests.{Bool-cases}
use smoking_data.Prelude.Lists.{length, is_empty, keep, all, All}
use smoking_data.Prelude.Names.{contains, add_name, union, remove_name, diff, unique}

pub contains-append :
    (x : String) (xs ys : List String) → contains x (xs ++ ys) ≡ (contains x xs || contains x ys)
contains-append x [] ys = refl
contains-append x (y ∷ xs) ys = ground (arith, contains-append x xs ys)

pub contains-insert_sorted :
    (before : String → String → Bool) (x y : String) (ys : List String)
    → contains x (insert_sorted before y ys) ≡ (x == y || contains x ys)
contains-insert_sorted before x y [] = refl
contains-insert_sorted before x y (z ∷ ys) = ground (arith, contains-insert_sorted before x y ys)

pub contains-sort :
    (before : String → String → Bool) (x : String) (xs : List String)
    → contains x (sort before xs) ≡ contains x xs
contains-sort before x [] = refl
contains-sort before x (y ∷ xs) =
    ground (arith, contains-insert_sorted before x y (sort before xs), contains-sort before x xs)

pub unique-insert_sorted :
    (before : String → String → Bool) (y : String) (ys : List String)
    → unique (insert_sorted before y ys) ≡ (not (contains y ys) && unique ys)
unique-insert_sorted before y [] = refl
unique-insert_sorted before y (z ∷ ys) = ground (
  arith,
  unique-insert_sorted before y ys,
  contains-insert_sorted before z y ys,
  eq_iff y z,
  eq_iff z y,
)

pub unique-sort :
    (before : String → String → Bool) (xs : List String) → unique (sort before xs) ≡ unique xs
unique-sort before [] = refl
unique-sort before (y ∷ xs) = ground (
  arith,
  unique-insert_sorted before y (sort before xs),
  contains-sort before y xs,
  unique-sort before xs,
)

pub contains-remove_name :
    (x y : String) (ys : List String)
    → contains x (remove_name y ys) ≡ (contains x ys && not (y == x))
contains-remove_name x y [] = refl
contains-remove_name x y (z ∷ ys) =
    ground (arith, contains-remove_name x y ys, eq_iff y z, eq_iff x z, eq_iff y x)

pub remove_name_absent :
    (y : String) (ys : List String) → contains y ys ≡ false → remove_name y ys ≡ ys
remove_name_absent y [] h = refl
remove_name_absent y (z ∷ ys) h = ground (arith, remove_name_absent y ys)

pub diff-snoc :
    (ds s : List String) (c : String) → diff ds (s ++ c ∷ []) ≡ remove_name c (diff ds s)
diff-snoc [] s c = refl
diff-snoc (d ∷ ds) s c =
    ground (arith, diff-snoc ds s c, contains-append d s (c ∷ []), eq_iff c d, eq_iff d c)

pub diff-nil : (ds : List String) → diff ds [] ≡ ds
diff-nil [] = refl
diff-nil (d ∷ ds) = ground (arith, diff-nil ds)

length-remove_name-le : (x : String) (ys : List String) → length (remove_name x ys) ≤ length ys
length-remove_name-le x [] = omega arith
length-remove_name-le x (y ∷ ys) = ground (arith, length-remove_name-le x ys)

pub length-remove_name :
    (x : String) (ys : List String)
    → contains x ys ≡ true
    → suc (length (remove_name x ys)) ≤ length ys
length-remove_name x [] h = cc
length-remove_name x (y ∷ ys) h =
    ground (arith, length-remove_name-le x ys, length-remove_name x ys)

-- Names without repetition out of a list are no more than the list.
pub length-unique-le :
    (xs ys : List String)
    → unique xs ≡ true
    → ((x : String) → contains x xs ≡ true → contains x ys ≡ true)
    → length xs ≤ length ys
length-unique-le [] ys u sub = omega arith
length-unique-le (x ∷ xs) ys u sub =
    let rest =
      length-unique-le xs (remove_name x ys) (ground arith)
        λ z h. ground (arith, contains-remove_name z x ys, sub z, eq_iff x z) in
    ground (arith, rest, length-remove_name x ys, sub x, eq_refl x)

pub contains-keep :
    (p : String → Bool) (x : String) (xs : List String)
    → contains x (keep p xs) ≡ (contains x xs && p x)
contains-keep p x [] = refl
contains-keep p x (y ∷ xs) = ground (arith, contains-keep p x xs, eq_iff x y)

pub unique-keep :
    (p : String → Bool) (xs : List String) → unique xs ≡ true → unique (keep p xs) ≡ true
unique-keep p [] u = refl
unique-keep p (x ∷ xs) u = ground (arith, unique-keep p xs, contains-keep p x xs)

pub unique-snoc :
    (xs : List String) (c : String) → unique (xs ++ c ∷ []) ≡ (not (contains c xs) && unique xs)
unique-snoc [] c = refl
unique-snoc (x ∷ xs) c =
    ground (arith, unique-snoc xs c, contains-append x xs (c ∷ []), eq_iff x c, eq_iff c x)

pub is_empty-remove_name :
    (x : String) (ys : List String)
    → is_empty (remove_name x ys) ≡ (is_empty ys || (contains x ys && is_empty (remove_name x ys)))
is_empty-remove_name x [] = refl
is_empty-remove_name x (y ∷ ys) = ground (arith, remove_name_absent x (y ∷ ys))

pub remove_name-remove_name :
    (x : String) (ys : List String) → remove_name x (remove_name x ys) ≡ remove_name x ys
remove_name-remove_name x [] = refl
remove_name-remove_name x (y ∷ ys) = ground (arith, remove_name-remove_name x ys)

pub is_empty-diff : (ds s : List String) → is_empty (diff ds s) ≡ all (λ d. contains d s) ds
is_empty-diff [] s = refl
is_empty-diff (d ∷ ds) s = ground (arith, is_empty-diff ds s)

pub contains-add_name :
    (x y : String) (s : List String) → contains x (add_name y s) ≡ (x == y || contains x s)
contains-add_name x y s = ground (arith, contains-append x s (y ∷ []), eq_iff x y)

pub contains-union :
    (x : String) (s xs : List String) → contains x (union s xs) ≡ (contains x s || contains x xs)
contains-union x s [] = ground arith
contains-union x s (y ∷ xs) =
    ground (arith, contains-union x (add_name y s) xs, contains-add_name x y s)

module _ (p : String → Bool) where
  all-contains : (x : String) (s : List String) → all p s ≡ true → contains x s ≡ true → p x ≡ true
  all-contains x [] h k = cc
  all-contains x (y ∷ s) h k = ground (arith, all-contains x s, eq_iff x y)

  all-snoc : (s : List String) (x : String) → all p (s ++ x ∷ []) ≡ (all p s && p x)
  all-snoc [] x = ground arith
  all-snoc (y ∷ s) x = ground (arith, all-snoc s x)

  pub all-union :
      (s xs : List String) → all p (union s xs) ≡ true → (all p s ≡ true) × (all p xs ≡ true)
  all-union s [] h = (h, refl)
  all-union s (x ∷ xs) h =
      let (hs, hx) = all-union (add_name x s) xs h in
      (ground (arith, all-snoc s x), ground (arith, all-snoc s x, all-contains x s))

pub All-contains {ℓ} :
    (P : String → Type ℓ) (xs : List String) (x : String) → All P xs → contains x xs ≡ true → P x
All-contains P [] x h k = cc
All-contains P (y ∷ xs) x h k = elim (Bool-cases (x == y)) [
  | inl here ↦ subst P (sym ((eq_iff x y).0 here)) h.0
  | inr there ↦ All-contains P xs x h.1 (ground arith)
]
