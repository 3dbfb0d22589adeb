-- ===== src/Core/Optimizer/Calcs.antt =====
-- The rules on calculations of src/smoking_data/core/optimizer.py on the two operations that it reads.
use smoking_data.Prelude.{
  ◌≡◌, refl, sym, ap, subst, ◌∙◌, String, true, false, not, ◌&&◌, ◌||◌, none, some, List, [], ◌∷◌,
  ◌++◌, arith, All, All-append, All-map, str_eq, eq_iff,
}
use smoking_data.Prelude.Names.{contains, union}
use smoking_data.Prelude.Names.Laws.{contains-append}
use smoking_data.Core.Optimizer.{
  Operation, Expression, overlap, is_filter, is_add_calc, merge_calcs, filter_over_calc,
  merged_calc,
}
use smoking_data.Core.Optimizer.Engine.{Row, Engine, keeps, calculate, set, calc_row, or_fails}
use smoking_data.Core.Optimizer.Local.{then_row}
use smoking_data.Core.Optimizer.Sound.{
  Agree, Agree-union, overlap-false, ExpressionSound, CalcSound, Sound,
}
use smoking_data.Core.Optimizer.Rows.{
  if-some, SameMeaning, calc-Acts, same-one, calc-Sound, Sound-calc, RuleSound,
}
use smoking_data.Core.Optimizer.Filters.{swapped-Sound}

module _ (engine : Engine) where
  open engine use {Value, eval}

  set-other :
      (x : String) (v : Value) (row : Row Value) (c : String)
      → str_eq x c ≡ false
      → set x v row c ≡ row c
  set-other x v row c h = rw (h) refl

  calculate_cons :
      (e : Expression) (es : List Expression) (source row : Row Value) (v : Value)
      → eval e.text source ≡ some v
      → calculate engine (e ∷ es) source row ≡ calculate engine es source (set e.alias v row)
  unfolding calculate
  calculate_cons e es source row v h =
      ap (λ o. elim o [ none ↦ none | some v' ↦ calculate engine es source (set e.alias v' row) ]) h

  -- Sound expressions have values, and change declared columns only.
  calculate-keeps :
      (es : List Expression) (ins outs : List String) (source row : Row Value)
      → All (ExpressionSound engine ins outs) es
      → (new : Row Value) × (calculate engine es source row ≡ some new)
        × ((c : String) → contains c outs ≡ false → new c ≡ row c)
  unfolding calculate ExpressionSound
  calculate-keeps [] ins outs source row h = (row, refl, λ c k. refl)
  calculate-keeps (e ∷ es) ins outs source row ((read, total, declared), hs) =
      let (v, hv) = total source in
      let (new, run_es, same) = calculate-keeps es ins outs source (set e.alias v row) hs in
      (
        new,
        calculate_cons e es source row v hv ∙ run_es,
        λ c k. same c k ∙ set-other e.alias v row c (ground (arith, eq_iff e.alias c)),
      )

  -- Expressions make the same of rows that agree in what they read.
  calculate-congr :
      (es : List Expression) (ins outs : List String) (a b row : Row Value)
      → All (ExpressionSound engine ins outs) es
      → Agree ins a b
      → calculate engine es a row ≡ calculate engine es b row
  unfolding calculate ExpressionSound
  calculate-congr [] ins outs a b row h k = refl
  calculate-congr (e ∷ es) ins outs a b row ((read, total, declared), hs) k =
      let (v, hv) = total b in
      calculate_cons e es a row v (read a b k ∙ hv)
      ∙ calculate-congr es ins outs a b (set e.alias v row) hs k
      ∙ sym (calculate_cons e es b row v hv)

  calculate-append :
      (xs ys : List Expression) (ins outs : List String) (source row new : Row Value)
      → All (ExpressionSound engine ins outs) xs
      → calculate engine xs source row ≡ some new
      → calculate engine (xs ++ ys) source row ≡ calculate engine ys source new
  unfolding calculate ExpressionSound
  calculate-append [] ys ins outs source row new h e = ap (calculate engine ys source) cc
  calculate-append (x ∷ xs) ys ins outs source row new ((read, total, declared), hs) e =
      let (v, hv) = total source in
      calculate_cons x (xs ++ ys) source row v hv
      ∙ calculate-append xs ys ins outs source (set x.alias v row) new hs
          (sym (calculate_cons x xs source row v hv) ∙ e)

  merged_row :
      (l r : Operation) (row : Row Value)
      → CalcSound engine l
      → CalcSound engine r
      → overlap l.output_columns r.input_columns ≡ false
      → then_row engine (calc_row engine l row) (calc_row engine r)
        ≡ calc_row engine (merged_calc l r) row
  unfolding CalcSound Agree
  merged_row l r row sl sr apart =
      let (new, run_l, same) =
        calculate-keeps l.config.expressions l.input_columns l.output_columns row row sl.1 in
      let together =
        calculate-append l.config.expressions r.config.expressions l.input_columns l.output_columns
          row row new sl.1 run_l in
      let read_new =
        calculate-congr r.config.expressions r.input_columns r.output_columns new row new sr.1
          λ c k. same c (overlap-false l.output_columns r.input_columns c apart k) in
      ap (λ o. then_row engine (or_fails o) (calc_row engine r)) run_l
      ∙ ap or_fails (read_new ∙ sym together)

  merged_calc-Sound :
      (l r : Operation)
      → CalcSound engine l
      → CalcSound engine r
      → CalcSound engine (merged_calc l r)
  unfolding CalcSound ExpressionSound
  merged_calc-Sound l r sl sr =
      let ins = union [] (l.input_columns ++ r.input_columns) in
      let outs = l.output_columns ++ r.output_columns in
      (
        sl.0,
        All-append (ExpressionSound engine ins outs) l.config.expressions r.config.expressions
            (All-map (ExpressionSound engine ins outs) l.config.expressions
              (λ e (read, total, declared). (
                λ a b h. read a b (Agree-union l.input_columns r.input_columns a b h).0,
                total,
                ground (arith, contains-append e.alias l.output_columns r.output_columns),
              ))
              sl.1)
            (All-map (ExpressionSound engine ins outs) r.config.expressions
              (λ e (read, total, declared). (
                λ a b h. read a b (Agree-union l.input_columns r.input_columns a b h).1,
                total,
                ground (arith, contains-append e.alias l.output_columns r.output_columns),
              ))
              sr.1),
      )

  pub merge_calcs-Sound : RuleSound engine merge_calcs
  unfolding RuleSound merge_calcs CalcSound
  merge_calcs-Sound l r out sl sr h =
      let (c, e) =
        if-some
          (is_add_calc l.kind
            && is_add_calc r.kind
            && not (
                overlap l.output_columns r.input_columns
                || overlap r.output_columns l.input_columns))
          (merged_calc l r ∷ []) out h in
      let kl : is_add_calc l.kind ≡ true = ground arith in
      let kr : is_add_calc r.kind ≡ true = ground arith in
      let fl = calc-Sound engine l kl sl in
      let fr = calc-Sound engine r kr sr in
      subst (λ o. SameMeaning engine (l ∷ r ∷ []) o × All (Sound engine) o) e
        (
          same-one engine l r (merged_calc l r) (calc_row engine l) (calc_row engine r)
              (calc_row engine (merged_calc l r)) (calc-Acts engine l kl fl.0)
              (calc-Acts engine r kr fr.0) (calc-Acts engine (merged_calc l r) kl fl.0)
              (λ row. merged_row l r row fl fr (ground arith)),
          (Sound-calc engine (merged_calc l r) kl (merged_calc-Sound l r fl fr), tt),
        )

  -- Every row is kept, with the columns that a predicate reads.
  calc_keeps :
      (l r : Operation)
      → CalcSound engine l
      → overlap l.output_columns r.input_columns ≡ false
      → (row : Row Value)
      → (new : Row Value) × (calc_row engine l row ≡ keeps new) × Agree r.input_columns new row
  unfolding Agree CalcSound
  calc_keeps l r s apart row =
      let (new, run_l, same) =
        calculate-keeps l.config.expressions l.input_columns l.output_columns row row s.1 in
      (
        new,
        ap or_fails run_l,
        λ col k. same col (overlap-false l.output_columns r.input_columns col apart k),
      )

  pub filter_over_calc-Sound : RuleSound engine filter_over_calc
  unfolding RuleSound filter_over_calc Agree CalcSound
  filter_over_calc-Sound l r out sl sr h =
      let (c, e) =
        if-some
          (is_add_calc l.kind && is_filter r.kind && not (overlap l.output_columns r.input_columns))
          (r ∷ l ∷ []) out h in
      let kl : is_add_calc l.kind ≡ true = ground arith in
      let kr : is_filter r.kind ≡ true = ground arith in
      let apart : overlap l.output_columns r.input_columns ≡ false = ground arith in
      subst (λ o. SameMeaning engine (l ∷ r ∷ []) o × All (Sound engine) o) e
        (
          swapped-Sound engine l r (calc_row engine l)
              (calc-Acts engine l kl (calc-Sound engine l kl sl).0)
              (calc_keeps l r (calc-Sound engine l kl sl) apart) kr sr,
          (sr, (sl, tt)),
        )
