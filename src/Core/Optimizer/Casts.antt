-- ===== src/Core/Optimizer/Casts.antt =====
-- The rules on casts of src/smoking_data/core/optimizer.py on the two operations that it reads.
use smoking_data.Prelude.{
  ◌≡◌, refl, sym, ap, subst, ◌∙◌, true, false, not, ◌&&◌, Option, none, some, List, [], ◌∷◌, arith,
  All, String, str_eq, eq_iff, Bool-cases, Option-cases, inl, inr,
}
use smoking_data.Prelude.Names.{contains}
use smoking_data.Core.Optimizer.{
  Operation, Cast, overlap, config_eq, Config, is_filter, is_type_cast, drop_cast, filter_over_cast,
}
use smoking_data.Core.Optimizer.Engine.{
  Row, Engine, keeps, cast_row, or_fails, set_cell, cast_columns, cast,
}
use smoking_data.Core.Optimizer.Local.{then_row}
use smoking_data.Core.Optimizer.Sound.{
  cast_names, names_once, Agree, overlap-false, config_eq-eq, CastSound, Sound,
}
use smoking_data.Core.Optimizer.Rows.{
  if-some, SameMeaning, cast-Acts, same-one, cast-Sound, RuleSound,
}
use smoking_data.Core.Optimizer.Filters.{swapped-Sound}

module _ (engine : Engine) where
  open engine use {Value, cast_value, cast_value-twice}

  or_else_row : Option (Row Value) → Row Value → Row Value
  or_else_row none row = row
  or_else_row (some new) row = new

  cast_columns_cons :
      (c : Cast) (cs : List Cast) (source row : Row Value) (v : Option Value)
      → cast_value c.spec (source c.name) ≡ some v
      → cast_columns engine (c ∷ cs) source row
        ≡ cast_columns engine cs source (set_cell c.name v row)
  unfolding cast_columns
  cast_columns_cons c cs source row v h =
      ap
        (λ o. elim o [
          | none ↦ none
          | some v' ↦ cast_columns engine cs source (set_cell c.name v' row)
        ])
        h

  set_cell-other :
      (x : String) (v : Option Value) (row : Row Value) (c : String)
      → str_eq x c ≡ false
      → set_cell x v row c ≡ row c
  set_cell-other x v row c h = rw (h) refl

  set_cell_self : (x : String) (v : Option Value) (row : Row Value) → set_cell x v row x ≡ v
  set_cell_self x v row =
      let same : str_eq x x ≡ true = ground (arith, eq_iff x x) in rw (same) refl

  set_cell_same : (x : String) (row : Row Value) → set_cell x (row x) row ≡ row
  set_cell_same x row i c = at_column c i
    where
      at_column : (c : String) → set_cell x (row x) row c ≡ row c
      at_column c = elim (Bool-cases (str_eq x c)) [
        | inl here ↦ rw (here) (ap row ((eq_iff x c).0 here))
        | inr there ↦ rw (there) refl
      ]

  cast_keeps :
      (l r : Operation)
      → CastSound engine l
      → l.properties.total ≡ true
      → overlap l.output_columns r.input_columns ≡ false
      → (row : Row Value)
      → (new : Row Value) × (cast_row engine l row ≡ keeps new) × Agree r.input_columns new row
  unfolding Agree CastSound
  cast_keeps l r s total_l apart row =
      let (new, cast_l) = s.2 total_l row in
      (
        new,
        ap or_fails cast_l,
        λ col k.
            s.1 row new cast_l col (overlap-false l.output_columns r.input_columns col apart k),
      )

  pub filter_over_cast-Sound : RuleSound engine filter_over_cast
  unfolding RuleSound filter_over_cast Agree CastSound
  filter_over_cast-Sound l r out sl sr h =
      let (c, e) =
        if-some
          (is_type_cast l.kind
            && is_filter r.kind
            && l.properties.total
            && l.config.order_preserving
            && not (overlap l.output_columns r.input_columns))
          (r ∷ l ∷ []) out h in
      let kl : is_type_cast l.kind ≡ true = ground arith in
      let kr : is_filter r.kind ≡ true = ground arith in
      let total_l : l.properties.total ≡ true = ground arith in
      let apart : overlap l.output_columns r.input_columns ≡ false = ground arith in
      subst (λ o. SameMeaning engine (l ∷ r ∷ []) o × All (Sound engine) o) e
        (
          swapped-Sound engine l r (cast_row engine l) (cast-Acts engine l kl)
              (cast_keeps l r (cast-Sound engine l kl sl) total_l apart) kr sr,
          (sr, (sl, tt)),
        )

  cast_columns-other :
      (cs : List Cast) (source row new : Row Value) (x : String)
      → cast_columns engine cs source row ≡ some new
      → contains x (cast_names cs) ≡ false
      → new x ≡ row x
  unfolding cast_columns or_else_row
  cast_columns-other [] source row new x h k = ap (λ o. or_else_row o row x) (sym h)
  cast_columns-other (c ∷ cs) source row new x h k =
      elim (Option-cases (cast_value c.spec (source c.name))) [
        | inl failed ↦ absurd (ground arith)
        | inr (v, e) ↦
            let later : cast_columns engine cs source (set_cell c.name v row) ≡ some new =
              sym (cast_columns_cons c cs source row v e) ∙ h in
            cast_columns-other cs source (set_cell c.name v row) new x later (ground arith)
            ∙ set_cell-other c.name v row x (ground (arith, eq_iff c.name x, eq_iff x c.name))
      ]

  -- Each cell that was cast is as its cast leaves it.
  IsCast : List Cast → Row Value → Type 0
  IsCast cs row = All (λ (c : Cast). cast_value c.spec (row c.name) ≡ some (row c.name)) cs

  cast_columns-IsCast :
      (cs : List Cast) (source row new : Row Value)
      → names_once (cast_names cs) ≡ true
      → cast_columns engine cs source row ≡ some new
      → IsCast cs new
  unfolding IsCast cast_columns
  cast_columns-IsCast [] source row new once h = tt
  cast_columns-IsCast (c ∷ cs) source row new once h =
      elim (Option-cases (cast_value c.spec (source c.name))) [
        | inl failed ↦ absurd (ground arith)
        | inr (v, e) ↦
            let later : cast_columns engine cs source (set_cell c.name v row) ≡ some new =
              sym (cast_columns_cons c cs source row v e) ∙ h in
            let cell : new c.name ≡ v =
              cast_columns-other cs source (set_cell c.name v row) new c.name later (ground arith)
              ∙ set_cell_self c.name v row in
            (
              subst (λ w. cast_value c.spec w ≡ some w) (sym cell)
                  (cast_value-twice c.spec (source c.name) v e),
              cast_columns-IsCast cs source (set_cell c.name v row) new (ground arith) later,
            )
      ]

  IsCast-cast_columns :
      (cs : List Cast) (row : Row Value) → IsCast cs row → cast_columns engine cs row row ≡ some row
  unfolding IsCast cast_columns
  IsCast-cast_columns [] row h = refl
  IsCast-cast_columns (c ∷ cs) row (here, later) =
      cast_columns_cons c cs row row (row c.name) here
      ∙ ap (λ r. cast_columns engine cs row r) (set_cell_same c.name row)
      ∙ IsCast-cast_columns cs row later

  -- A row that was cast is the same after a second cast.
  cast-cast :
      (config : Config) (row new : Row Value)
      → names_once (cast_names config.casts) ≡ true
      → cast engine config row ≡ some new
      → cast engine config new ≡ some new
  cast-cast config row new once h =
      IsCast-cast_columns config.casts new (cast_columns-IsCast config.casts row row new once h)

  cast_twice :
      (a b : Config) (row : Row Value) (o : Option (Row Value))
      → a ≡ b
      → names_once (cast_names a.casts) ≡ true
      → cast engine a row ≡ o
      → then_row engine (or_fails o) (λ row'. or_fails (cast engine b row')) ≡ or_fails o
  cast_twice a b row none e once h = refl
  cast_twice a b row (some new) e once h =
      ap (λ config. or_fails (cast engine config new)) (sym e)
      ∙ ap or_fails (cast-cast a row new once h)

  pub drop_cast-Sound : RuleSound engine drop_cast
  unfolding RuleSound drop_cast config_eq CastSound
  drop_cast-Sound l r out sl sr h =
      let (c, e) =
        if-some (is_type_cast l.kind && is_type_cast r.kind && config_eq l.config r.config) (l ∷ [])
          out h in
      let kl : is_type_cast l.kind ≡ true = ground arith in
      let kr : is_type_cast r.kind ≡ true = ground arith in
      let alike = config_eq-eq l.config r.config (ground arith) in
      subst (λ o. SameMeaning engine (l ∷ r ∷ []) o × All (Sound engine) o) e
        (
          same-one engine l r l (cast_row engine l) (cast_row engine r) (cast_row engine l)
              (cast-Acts engine l kl) (cast-Acts engine r kr) (cast-Acts engine l kl)
              (λ row.
                cast_twice l.config r.config row (cast engine l.config row) alike
                  (cast-Sound engine l kl sl).0 refl),
          (sl, tt),
        )
