-- ===== src/Core/Optimizer/Filters.antt =====
-- The rules on filters of src/smoking_data/core/optimizer.py on the two operations that it reads.
use smoking_data.Prelude.{
  ◌≡◌, refl, sym, ap, subst, ◌∙◌, String, Bool, true, false, not, ◌&&◌, ◌||◌, some, [], ◌∷◌, arith,
  All, is_empty,
}
use smoking_data.Core.Optimizer.{
  Operation, overlap, subset, is_filter, is_projection, merge_filters, filter_over_projection,
  merged_filter, and_sql,
}
use smoking_data.Core.Optimizer.Engine.{
  Row, Engine, RowOutcome, fails, drops, keeps, predicate, filter_row, project_row, kept_by,
}
use smoking_data.Core.Optimizer.Local.{then_row}
use smoking_data.Core.Optimizer.Sound.{
  Agree, Agree-union, overlap-false_of, subset-contains, FilterSound, Sound,
}
use smoking_data.Core.Optimizer.Rows.{
  if-some, merge_filters-some, Acts, SameMeaning, filter-Acts, projection-Acts, same-one,
  same-swapped, swapped-row, filter-Sound, Sound-filter, RuleSound,
}

module _ (engine : Engine) where
  open engine use {Value, test, project, test-and_sql, project-keeps}

  then_row-congr :
      (o : RowOutcome Value) (f g : Row Value → RowOutcome Value)
      → ((row : Row Value) → f row ≡ g row)
      → then_row engine o f ≡ then_row engine o g
  then_row-congr fails f g h = refl
  then_row-congr drops f g h = refl
  then_row-congr (keeps row) f g h = h row

  both_tests :
      (a b : String) (row : Row Value) (x y : Bool)
      → test a row ≡ some x
      → test b row ≡ some y
      → then_row engine (kept_by (test a row) row) (λ row'. kept_by (test b row') row')
        ≡ kept_by (test (and_sql a b) row) row
  both_tests a b row true y hx hy = rw (hx, hy, test-and_sql a b row true y hx hy) refl
  both_tests a b row false y hx hy = rw (hx, test-and_sql a b row false y hx hy) refl

  -- The predicates of two filters with these texts.
  predicate-sql :
      (op : Operation) (a : String)
      → op.config.sql ≡ some a
      → (row : Row Value) → predicate engine op.config.sql op.config.others row ≡ test a row
  predicate-sql op a e row = ap (λ sql. predicate engine sql op.config.others row) e

  module _ (l r : Operation) (a b : String) (is_a : l.config.sql ≡ some a)
      (is_b : r.config.sql ≡ some b) where
    merged_filter-Sound :
        FilterSound engine l
        → FilterSound engine r
        → l.properties.total ≡ true
        → r.properties.total ≡ true
        → FilterSound engine (merged_filter l r a b)
    unfolding FilterSound
    merged_filter-Sound sl sr total_l total_r = (
      λ row row' h.
          let (x, hx) = sl.1 total_l row' in
          let (y, hy) = sr.1 total_r row' in
          let (hl, hr) = Agree-union l.input_columns r.input_columns row row' h in
          test-and_sql a b row x y (sym (predicate-sql l a is_a row) ∙ sl.0 row row' hl ∙ hx)
            (sym (predicate-sql r b is_b row) ∙ sr.0 row row' hr ∙ hy)
          ∙ sym (
              test-and_sql a b row' x y (sym (predicate-sql l a is_a row') ∙ hx)
                (sym (predicate-sql r b is_b row') ∙ hy)),
      λ t row.
          let (x, hx) = sl.1 total_l row in
          let (y, hy) = sr.1 total_r row in
          (
            x && y,
            test-and_sql a b row x y (sym (predicate-sql l a is_a row) ∙ hx)
                (sym (predicate-sql r b is_b row) ∙ hy),
          ),
    )

    filter_row-sql :
        (op : Operation) (sql : String)
        → op.config.sql ≡ some sql
        → (row : Row Value) → filter_row engine op row ≡ kept_by (test sql row) row
    filter_row-sql op sql e row = ap (λ o. kept_by o row) (predicate-sql op sql e row)

    merged_filter_row :
        FilterSound engine l
        → FilterSound engine r
        → l.properties.total ≡ true
        → r.properties.total ≡ true
        → (row : Row Value)
        → then_row engine (filter_row engine l row) (filter_row engine r)
          ≡ filter_row engine (merged_filter l r a b) row
    unfolding FilterSound
    merged_filter_row sl sr total_l total_r row =
        let (x, hx) = sl.1 total_l row in
        let (y, hy) = sr.1 total_r row in
        then_row-congr (filter_row engine l row) (filter_row engine r)
          (λ row'. kept_by (test b row') row') (filter_row-sql r b is_b)
        ∙ ap (λ o. then_row engine o (λ row'. kept_by (test b row') row'))
            (filter_row-sql l a is_a row)
        ∙ both_tests a b row x y (sym (predicate-sql l a is_a row) ∙ hx)
            (sym (predicate-sql r b is_b row) ∙ hy)

  pub merge_filters-Sound : RuleSound engine merge_filters
  unfolding RuleSound
  merge_filters-Sound l r out sl sr h =
      let (c, a, b, is_a, is_b, e) = merge_filters-some l r out h in
      let kl : is_filter l.kind ≡ true = ground arith in
      let kr : is_filter r.kind ≡ true = ground arith in
      let total_l : l.properties.total ≡ true = ground arith in
      let total_r : r.properties.total ≡ true = ground arith in
      let fl = filter-Sound engine l kl sl in
      let fr = filter-Sound engine r kr sr in
      subst (λ o. SameMeaning engine (l ∷ r ∷ []) o × All (Sound engine) o) e
        (
          same-one engine l r (merged_filter l r a b) (filter_row engine l) (filter_row engine r)
              (filter_row engine (merged_filter l r a b)) (filter-Acts engine l kl)
              (filter-Acts engine r kr) (filter-Acts engine (merged_filter l r a b) kl)
              (merged_filter_row l r a b is_a is_b fl fr total_l total_r),
          (
            Sound-filter engine (merged_filter l r a b) kl
                (merged_filter-Sound l r a b is_a is_b fl fr total_l total_r),
            tt,
          ),
        )

  -- A filter goes before an operation that keeps every row and the columns that the predicate reads.
  pub swapped-Sound :
      (op filtering : Operation) (f : Row Value → RowOutcome Value)
      → Acts engine op f
      → ((row : Row Value)
          → (new : Row Value) × (f row ≡ keeps new) × Agree filtering.input_columns new row)
      → is_filter filtering.kind ≡ true
      → Sound engine filtering
      → SameMeaning engine (op ∷ filtering ∷ []) (filtering ∷ op ∷ [])
  unfolding FilterSound
  swapped-Sound op filtering f hf keeping k s =
      same-swapped engine op filtering f (filter_row engine filtering) hf
        (filter-Acts engine filtering k)
        λ row.
          let (new, e, same) = keeping row in
          swapped-row engine (predicate engine filtering.config.sql filtering.config.others row) row
            new (filter_row engine filtering) f e refl
            (ap (λ o. kept_by o new) ((filter-Sound engine filtering k s).0 new row same))

  pub filter_over_projection-Sound : RuleSound engine filter_over_projection
  unfolding RuleSound filter_over_projection Agree
  filter_over_projection-Sound l r out sl sr h =
      let (c, e) =
        if-some
          (is_projection l.kind
            && is_filter r.kind
            && (is_empty l.config.include || subset r.input_columns l.config.include)
            && not (overlap r.input_columns l.config.exclude))
          (r ∷ l ∷ []) out h in
      let kl : is_projection l.kind ≡ true = ground arith in
      let kr : is_filter r.kind ≡ true = ground arith in
      subst (λ o. SameMeaning engine (l ∷ r ∷ []) o × All (Sound engine) o) e
        (
          swapped-Sound l r (project_row engine l) (projection-Acts engine l kl)
              (λ row. (
                project l.config.include l.config.exclude row,
                refl,
                λ col k.
                    project-keeps l.config.include l.config.exclude row col
                      (ground (arith, subset-contains r.input_columns l.config.include col))
                      (ground (arith, overlap-false_of r.input_columns l.config.exclude col)),
              ))
              kr sr,
          (sr, (sl, tt)),
        )
