-- ===== src/Prelude/Names/Sizes.antt =====
-- The size of a set of names tells whether names were repeated.
use Prim.Native.String.{String}
use Prim.Native.Nat.{suc, ◌+◌, ◌≤◌}
use mathlib.Core.Path.{◌≡◌, refl}
use mathlib.Core.Logic.{inl, inr}
use mathlib.Core.Bool.{true, false}
use mathlib.Core.List.{List, [], ◌∷◌}
use text.Mathlib.TextEquality.{eq_iff}
use native.Mathlib.Omega.{arith}
use smoking_data.Prelude.Tests.{Bool-cases, if◌then◌else◌}
use smoking_data.Prelude.Lists.{length, length-append}
use smoking_data.Prelude.Names.{contains, add_name, union, unique}
use smoking_data.Prelude.Names.Laws.{contains-append}

length-add_name :
    (x : String) (s : List String)
    → length (add_name x s) ≡ (if contains x s then length s else suc (length s))
length-add_name x s = ground (arith, length-append s (x ∷ []))

pub length-union-le : (s xs : List String) → length (union s xs) ≤ length s + length xs
length-union-le s [] = omega arith
length-union-le s (x ∷ xs) = ground (arith, length-union-le (add_name x s) xs, length-add_name x s)

-- A set as large as the lists that it was made of: nothing was there already.
pub unique-of_union :
    (s xs : List String)
    → length (union s xs) ≡ length s + length xs
    → (unique xs ≡ true) × ((y : String) → contains y xs ≡ true → contains y s ≡ false)
unique-of_union s [] h = (refl, λ y k. cc)
unique-of_union s (x ∷ xs) h = elim (Bool-cases (contains x s)) [
  | inl old ↦ absurd (ground (arith, length-union-le (add_name x s) xs, length-add_name x s))
  | inr new ↦
      let (u, apart) = unique-of_union (add_name x s) xs (ground (arith, length-add_name x s)) in
      let apart' = rw new at apart in
      (
        ground (arith, apart' x, contains-append x s (x ∷ []), eq_iff x x),
        λ y k. ground (arith, apart' y, contains-append y s (x ∷ []), eq_iff y x),
      )
]
