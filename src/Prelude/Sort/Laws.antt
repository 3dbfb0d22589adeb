-- ===== src/Prelude/Sort/Laws.antt =====
-- What `sort` keeps, and that its first element stands before all others.
use mathlib.Core.Path.{◌≡◌}
use mathlib.Core.Logic.{◌≢◌, inl, inr}
use mathlib.Core.Bool.{Bool, true, false}
use mathlib.Core.List.{List, [], ◌∷◌}
use native.Mathlib.Omega.{arith}
use smoking_data.Prelude.Lists.{All, All-map}
use smoking_data.Prelude.Tests.{Bool-cases}
use smoking_data.Prelude.Sort.{insert_sorted, sort}

-- The test is a linear preorder.
pub record IsOrder {ℓ} {A : Type ℓ} (before : A → A → Bool) : Type ℓ where
  pub total : (x y : A) → before x y ≡ false → before y x ≡ true
  pub trans : (x y z : A) → before x y ≡ true → before y z ≡ true → before x z ≡ true

module _ {ℓ κ} {A : Type ℓ} (before : A → A → Bool) (P : A → Type κ) where
  pub All-insert_sorted : (x : A) (ys : List A) → P x → All P ys → All P (insert_sorted before x ys)
  All-insert_sorted x [] p h = (p, tt)
  All-insert_sorted x (y ∷ ys) p h = elim (Bool-cases (before x y)) [
    | inl first ↦ rw first (p, h)
    | inr later ↦ rw later (h.0, All-insert_sorted x ys p h.1)
  ]

  pub All-sort : (xs : List A) → All P xs → All P (sort before xs)
  All-sort [] h = tt
  All-sort (x ∷ xs) h = All-insert_sorted x (sort before xs) h.0 (All-sort xs h.1)

  insert_sorted-All : (x : A) (ys : List A) → All P (insert_sorted before x ys) → P x × All P ys
  insert_sorted-All x [] h = h
  insert_sorted-All x (y ∷ ys) h = elim (Bool-cases (before x y)) [
    | inl first ↦ rw first at h
    | inr later ↦
        let h' : P y × All P (insert_sorted before x ys) = rw later at h in
        let (p, rest) = insert_sorted-All x ys h'.1 in (p, (h'.0, rest))
  ]

  -- What holds of all elements of the sorted list holds of all that were given.
  pub sort-All : (xs : List A) → All P (sort before xs) → All P xs
  sort-All [] h = tt
  sort-All (x ∷ xs) h =
      let (p, rest) = insert_sorted-All x (sort before xs) h in (p, sort-All xs rest)

module _ {ℓ} {A : Type ℓ} (before : A → A → Bool) (order : IsOrder before) where
  -- Each element stands before all that follow it.
  abbrev pub IsSorted : List A → Type ℓ
  IsSorted [] = Unit
  IsSorted (x ∷ xs) = All (λ y. before x y ≡ true) xs × IsSorted xs

  insert_sorted-IsSorted :
      (x : A) (ys : List A) → IsSorted ys → IsSorted (insert_sorted before x ys)
  insert_sorted-IsSorted x [] h = (tt, tt)
  insert_sorted-IsSorted x (y ∷ ys) h = elim (Bool-cases (before x y)) [
    | inl first ↦
        rw first
          ((first, All-map (λ z. before x z ≡ true) ys (λ z. order.trans x y z first) h.0), h)
    | inr later ↦ rw later (
      All-insert_sorted before (λ z. before y z ≡ true) x ys (order.total x y later) h.0,
      insert_sorted-IsSorted x ys h.1,
    )
  ]

  pub sort-IsSorted : (xs : List A) → IsSorted (sort before xs)
  sort-IsSorted [] = tt
  sort-IsSorted (x ∷ xs) = insert_sorted-IsSorted x (sort before xs) (sort-IsSorted xs)

pub insert_sorted-ne-nil {ℓ} :
    {A : Type ℓ} (before : A → A → Bool) (x : A) (ys : List A) → insert_sorted before x ys ≢ []
insert_sorted-ne-nil before x [] h = cc
insert_sorted-ne-nil before x (y ∷ ys) h = ground arith
