-- ===== src/Core/Optimizer/Rows.antt =====
-- Two operations of src/smoking_data/core/optimizer.py side by side that work row by row.
use smoking_data.Prelude.{
  ◌≡◌, refl, sym, ap, subst, ◌∙◌, Bool, true, false, Option, none, some, List, [], ◌∷◌, All,
  if◌then◌else◌, String, ◌&&◌, Bool-cases, arith, inl, inr,
}
use smoking_data.Core.Operations.{OperationKind, filter, projection, add_calc, type_cast}
use smoking_data.Core.Optimizer.{
  Operation, Rewrite, rewritten, unchanged, merged_filter, merged_filters, merge_filters, is_filter,
  is_projection, is_add_calc, is_type_cast,
}
use smoking_data.Core.Optimizer.Engine.{
  Row, Engine, RowOutcome, keeps, meaning, apply_kind, apply_calc, is_window, and_then, each,
  filter_row, project_row, calc_row, cast_row, kept_by,
}
use smoking_data.Core.Optimizer.Local.{then_row, each-each, each-congr}
use smoking_data.Core.Optimizer.Sound.{FilterSound, CalcSound, CastSound, SoundAs, Sound}

pub is_filter-eq : (k : OperationKind) → is_filter k ≡ true → k ≡ filter
is_filter-eq filter h = refl
is_filter-eq _ h = cc

pub is_projection-eq : (k : OperationKind) → is_projection k ≡ true → k ≡ projection
is_projection-eq projection h = refl
is_projection-eq _ h = cc

pub is_add_calc-eq : (k : OperationKind) → is_add_calc k ≡ true → k ≡ add_calc
is_add_calc-eq add_calc h = refl
is_add_calc-eq _ h = cc

pub is_type_cast-eq : (k : OperationKind) → is_type_cast k ≡ true → k ≡ type_cast
is_type_cast-eq type_cast h = refl
is_type_cast-eq _ h = cc

-- A rule that answers had its condition.
pub if-some :
    (b : Bool) (x y : List Operation)
    → (if b then rewritten x else unchanged) ≡ rewritten y
    → (b ≡ true) × (x ≡ y)
if-some true x y h = (refl, cc)
if-some false x y h = cc

merged_filters-some :
    (l r : Operation) (a b : Option String) (out : List Operation)
    → merged_filters l r a b ≡ rewritten out
    → (x : String) × (y : String) × (a ≡ some x) × (b ≡ some y) × (merged_filter l r x y ∷ [] ≡ out)
merged_filters-some l r none b out h = cc
merged_filters-some l r (some x) none out h = cc
merged_filters-some l r (some x) (some y) out h = (x, y, refl, refl, cc)

-- Filters that were merged are total and have SQL predicates.
pub merge_filters-some :
    (l r : Operation) (out : List Operation)
    → merge_filters l r ≡ rewritten out
    → ((is_filter l.kind && is_filter r.kind && l.properties.total && r.properties.total) ≡ true)
      × (a : String) × (b : String) × (l.config.sql ≡ some a)
      × (r.config.sql ≡ some b)
      × (merged_filter l r a b ∷ [] ≡ out)
unfolding merge_filters
merge_filters-some l r out h =
    let mergeable =
      is_filter l.kind && is_filter r.kind && l.properties.total && r.properties.total in
    elim (Bool-cases mergeable) [
      | inl met ↦
          let merged : merged_filters l r l.config.sql r.config.sql ≡ rewritten out =
            ground arith in
          let (a, b, is_a, is_b, e) =
            merged_filters-some l r l.config.sql r.config.sql out merged in
          (met, a, b, is_a, is_b, e)
      | inr unmet ↦ absurd (ground arith)
    ]

module _ (engine : Engine) where
  open engine use {Value, test, eval, project, run, test-and_sql, project-keeps}

  -- Two plans make the same of every table.
  unfoldable pub SameMeaning : List Operation → List Operation → Type 0
  SameMeaning a b = (rows : List (Row Value)) → meaning engine a rows ≡ meaning engine b rows

  -- An operation works row by row.
  unfoldable pub Acts : Operation → (Row Value → RowOutcome Value) → Type 0
  Acts op f = (rows : List (Row Value)) → apply_kind engine op.kind op rows ≡ each f rows

  and_then-some : (rows : Option (List (Row Value))) → and_then engine rows some ≡ rows
  and_then-some none = refl
  and_then-some (some rows) = refl

  pub meaning-one :
      (op : Operation) (rows : List (Row Value))
      → meaning engine (op ∷ []) rows ≡ apply_kind engine op.kind op rows
  unfolding meaning
  meaning-one op rows = and_then-some (apply_kind engine op.kind op rows)

  pub and_then-congr :
      (o : Option (List (Row Value))) (f g : List (Row Value) → Option (List (Row Value)))
      → ((rows : List (Row Value)) → f rows ≡ g rows)
      → and_then engine o f ≡ and_then engine o g
  and_then-congr none f g h = refl
  and_then-congr (some rows) f g h = h rows

  pub meaning-two :
      (l r : Operation) (f g : Row Value → RowOutcome Value) (rows : List (Row Value))
      → Acts l f
      → Acts r g
      → meaning engine (l ∷ r ∷ []) rows ≡ each (λ row. then_row engine (f row) g) rows
  unfolding Acts meaning
  meaning-two l r f g rows hl hr =
      and_then-congr (apply_kind engine l.kind l rows) (meaning engine (r ∷ [])) (each g)
        (λ rows. meaning-one r rows ∙ hr rows)
      ∙ ap (λ o. and_then engine o (each g)) (hl rows)
      ∙ each-each engine f g rows

  pub filter-Acts : (op : Operation) → is_filter op.kind ≡ true → Acts op (filter_row engine op)
  unfolding Acts
  filter-Acts op h rows = ap (λ k. apply_kind engine k op rows) (is_filter-eq op.kind h)

  pub projection-Acts :
      (op : Operation) → is_projection op.kind ≡ true → Acts op (project_row engine op)
  unfolding Acts
  projection-Acts op h rows = ap (λ k. apply_kind engine k op rows) (is_projection-eq op.kind h)

  pub calc-Acts :
      (op : Operation)
      → is_add_calc op.kind ≡ true
      → is_window op ≡ false
      → Acts op (calc_row engine op)
  unfolding Acts
  calc-Acts op h no_window rows =
      ap (λ k. apply_kind engine k op rows) (is_add_calc-eq op.kind h)
      ∙ ap (λ w. apply_calc engine w op rows) no_window

  pub cast-Acts : (op : Operation) → is_type_cast op.kind ≡ true → Acts op (cast_row engine op)
  unfolding Acts
  cast-Acts op h rows = ap (λ k. apply_kind engine k op rows) (is_type_cast-eq op.kind h)

  pub same-one :
      (l r m : Operation) (f g k : Row Value → RowOutcome Value)
      → Acts l f
      → Acts r g
      → Acts m k
      → ((row : Row Value) → then_row engine (f row) g ≡ k row)
      → SameMeaning (l ∷ r ∷ []) (m ∷ [])
  unfolding SameMeaning Acts
  same-one l r m f g k hl hr hm h rows =
      meaning-two l r f g rows hl hr
      ∙ each-congr engine (λ row. then_row engine (f row) g) k rows h
      ∙ sym (hm rows)
      ∙ sym (meaning-one m rows)

  -- A filter moved before an operation.
  pub same-swapped :
      (op filtering : Operation) (f g : Row Value → RowOutcome Value)
      → Acts op f
      → Acts filtering g
      → ((row : Row Value) → then_row engine (f row) g ≡ then_row engine (g row) f)
      → SameMeaning (op ∷ filtering ∷ []) (filtering ∷ op ∷ [])
  unfolding SameMeaning
  same-swapped op filtering f g hf hg h rows =
      meaning-two op filtering f g rows hf hg
      ∙ each-congr engine (λ row. then_row engine (f row) g) (λ row. then_row engine (g row) f) rows
          h
      ∙ sym (meaning-two filtering op g f rows hg hf)

  -- The test does not see what the operation does to the row.
  pub swapped-row :
      (o : Option Bool) (row new : Row Value) (g : Row Value → RowOutcome Value)
      (f : Row Value → RowOutcome Value)
      → f row ≡ keeps new
      → g row ≡ kept_by o row
      → g new ≡ kept_by o new
      → then_row engine (f row) g ≡ then_row engine (g row) f
  swapped-row none row new g f hf hg hn = rw (hf, hg, hn) refl
  swapped-row (some true) row new g f hf hg hn = rw (hf, hg, hn, hf) refl
  swapped-row (some false) row new g f hf hg hn = rw (hf, hg, hn) refl

  pub filter-Sound :
      (op : Operation) → is_filter op.kind ≡ true → Sound engine op → FilterSound engine op
  unfolding Sound SoundAs
  filter-Sound op h s = subst (λ k. SoundAs engine k op) (is_filter-eq op.kind h) s

  pub Sound-filter :
      (op : Operation) → is_filter op.kind ≡ true → FilterSound engine op → Sound engine op
  unfolding Sound SoundAs
  Sound-filter op h s = subst (λ k. SoundAs engine k op) (sym (is_filter-eq op.kind h)) s

  pub calc-Sound :
      (op : Operation) → is_add_calc op.kind ≡ true → Sound engine op → CalcSound engine op
  unfolding Sound SoundAs
  calc-Sound op h s = subst (λ k. SoundAs engine k op) (is_add_calc-eq op.kind h) s

  pub Sound-calc :
      (op : Operation) → is_add_calc op.kind ≡ true → CalcSound engine op → Sound engine op
  unfolding Sound SoundAs
  Sound-calc op h s = subst (λ k. SoundAs engine k op) (sym (is_add_calc-eq op.kind h)) s

  pub cast-Sound :
      (op : Operation) → is_type_cast op.kind ≡ true → Sound engine op → CastSound engine op
  unfolding Sound SoundAs
  cast-Sound op h s = subst (λ k. SoundAs engine k op) (is_type_cast-eq op.kind h) s

  -- What a rule makes of two sound operations means the same and is sound.
  unfoldable pub RuleSound : (Operation → Operation → Rewrite) → Type 0
  RuleSound rule =
      (l r : Operation) (out : List Operation)
      → Sound engine l
      → Sound engine r
      → rule l r ≡ rewritten out
      → SameMeaning (l ∷ r ∷ []) out × All (Sound engine) out
