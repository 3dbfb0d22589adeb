-- ===== src/Core/Optimizer/Local.antt =====
-- Row by row operations one after the other.
use smoking_data.Prelude.{◌≡◌, refl, sym, ap, ◌∙◌, Option, none, some, List, [], ◌∷◌}
use smoking_data.Core.Optimizer.Engine.{
  Row, Engine, RowOutcome, fails, drops, keeps, put, each, and_then,
}

module _ (engine : Engine) where
  open engine use {Value}

  abbrev pub then_row : RowOutcome Value → (Row Value → RowOutcome Value) → RowOutcome Value
  then_row fails g = fails
  then_row drops g = drops
  then_row (keeps row) g = g row

  put-none : (o : RowOutcome Value) → put o none ≡ none
  put-none fails = refl
  put-none drops = refl
  put-none (keeps row) = refl

  put-each :
      (o : RowOutcome Value) (g : Row Value → RowOutcome Value) (rows : Option (List (Row Value)))
      → and_then engine (put o rows) (each g) ≡ put (then_row o g) (and_then engine rows (each g))
  unfolding each
  put-each fails g rows = refl
  put-each drops g rows = refl
  put-each (keeps row) g none = sym (put-none (g row))
  put-each (keeps row) g (some rows) = refl

  -- Two passes over the rows are one.
  pub each-each :
      (f g : Row Value → RowOutcome Value) (rows : List (Row Value))
      → and_then engine (each f rows) (each g) ≡ each (λ row. then_row (f row) g) rows
  unfolding each
  each-each f g [] = refl
  each-each f g (row ∷ rows) =
      put-each (f row) g (each f rows) ∙ ap (put (then_row (f row) g)) (each-each f g rows)

  pub each-congr :
      (f g : Row Value → RowOutcome Value) (rows : List (Row Value))
      → ((row : Row Value) → f row ≡ g row)
      → each f rows ≡ each g rows
  unfolding each
  each-congr f g [] h = refl
  each-congr f g (row ∷ rows) h =
      ap (λ o. put o (each f rows)) (h row) ∙ ap (put (g row)) (each-congr f g rows h)
