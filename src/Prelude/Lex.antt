-- ===== src/Prelude/Lex.antt =====
-- Python's order on tuples and strings: the first place that differs decides.
use smoking_data.Prelude.Sort.Laws.{IsOrder}
use Prim.Native.Nat.{ℕ}
use mathlib.Core.Path.{◌≡◌, refl}
use mathlib.Core.Bool.{Bool, true, false}
use mathlib.Core.List.{List, [], ◌∷◌}
use native.Mathlib.Omega.{arith}
use smoking_data.Prelude.Tests.{ltb, ◌==◌, if◌then◌else◌}

-- `xs <= ys`
abbrev pub lex_leb : List ℕ → List ℕ → Bool
lex_leb [] ys = true
lex_leb (x ∷ xs) [] = false
lex_leb (x ∷ xs) (y ∷ ys) =
    let rest = lex_leb xs ys in if ltb x y then true else if x == y then rest else false

lex_leb-total : (xs ys : List ℕ) → lex_leb xs ys ≡ false → lex_leb ys xs ≡ true
lex_leb-total [] ys h = cc
lex_leb-total (x ∷ xs) [] h = refl
lex_leb-total (x ∷ xs) (y ∷ ys) h = ground (arith, lex_leb-total xs ys)

lex_leb_trans :
    (xs ys zs : List ℕ) → lex_leb xs ys ≡ true → lex_leb ys zs ≡ true → lex_leb xs zs ≡ true
lex_leb_trans [] ys zs h k = refl
lex_leb_trans (x ∷ xs) [] zs h k = cc
lex_leb_trans (x ∷ xs) (y ∷ ys) [] h k = cc
lex_leb_trans (x ∷ xs) (y ∷ ys) (z ∷ zs) h k = ground (arith, lex_leb_trans xs ys zs)

pub lex_leb-IsOrder {ℓ} : {A : Type ℓ} (key : A → List ℕ) → IsOrder (λ a b. lex_leb (key a) (key b))
lex_leb-IsOrder key = record {
  total = λ x y. lex_leb-total (key x) (key y);
  trans = λ x y z. lex_leb_trans (key x) (key y) (key z);
}
