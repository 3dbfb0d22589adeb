-- ===== src/Core/Optimizer/Regular.antt =====
-- Rules of src/smoking_data/core/optimizer.py on operations whose rewrites `_validate_rewrite` lets pass.
use smoking_data.Prelude.{
  ◌≡◌, ◌≢◌, refl, Bool, Bool-cases, inl, inr, if◌then◌else◌, sym, ap, subst, ◌∙◌, true, false, not,
  ◌&&◌, ◌||◌, String, Option, none, some, List, [], ◌∷◌, ◌++◌, All, arith, is_empty, append_assoc,
}
use smoking_data.Prelude.Names.{contains}
use smoking_data.Prelude.Names.Laws.{contains-append}
use smoking_data.Core.Operations.{OperationKind, filter, projection, add_calc, type_cast}
use smoking_data.Core.Optimizer.{
  Operation, Rewrite, unchanged, rewritten, raises_key_error, and_sql, merged_filters, Config,
  is_fixed_barrier, is_filter, is_projection, is_add_calc, is_type_cast, is_identity, config_eq,
  overlap, subset, merge_filters, merge_calcs, drop_cast, filter_over_projection, filter_over_calc,
  filter_over_cast, merged_filter, merged_calc,
}
use smoking_data.Core.Optimizer.Sound.{config_eq-eq}
use smoking_data.Core.Optimizer.Rows.{
  if-some, merge_filters-some, is_filter-eq, is_add_calc-eq, is_projection-eq, is_type_cast-eq,
}
use smoking_data.Core.Optimizer.Kept.{Alike}
use smoking_data.Core.Optimizer.Alike.{Alike-free}

merged_filters-ne-raises :
    (l r : Operation) (x y : Option String) (a b : String)
    → x ≡ some a
    → y ≡ some b
    → merged_filters l r x y ≢ raises_key_error
merged_filters-ne-raises l r none y a b is_a is_b h = cc
merged_filters-ne-raises l r (some x) none a b is_a is_b h = cc
merged_filters-ne-raises l r (some x) (some y) a b is_a is_b h = cc

-- Operations as `OPERATION_PROPERTIES` has them. The columns of a cast are a function of its config.
module _ (cast_columns : Config → List String) where
  unfoldable pub RegularAs : OperationKind → Operation → Type 0
  RegularAs filter op =
      (is_fixed_barrier op ≡ false)
      × (op.output_columns ≡ [])
      × (sql : String) × (op.config.sql ≡ some sql)
  RegularAs projection op =
      (is_fixed_barrier op ≡ false) × (is_identity op ≡ true → op.output_columns ≡ [])
  RegularAs add_calc op = is_fixed_barrier op ≡ false
  RegularAs type_cast op =
      (is_fixed_barrier op ≡ false) × (op.output_columns ≡ cast_columns op.config)
  RegularAs _ op = Unit

  unfoldable pub Regular : Operation → Type 0
  Regular op = RegularAs op.kind op

  pub Regular-filter :
      (op : Operation)
      → is_filter op.kind ≡ true
      → Regular op
      → (is_fixed_barrier op ≡ false)
        × (op.output_columns ≡ [])
        × (sql : String) × (op.config.sql ≡ some sql)
  unfolding RegularAs Regular
  Regular-filter op h r = subst (λ k. RegularAs k op) (is_filter-eq op.kind h) r

  pub Regular-projection :
      (op : Operation)
      → is_projection op.kind ≡ true
      → Regular op
      → (is_fixed_barrier op ≡ false) × (is_identity op ≡ true → op.output_columns ≡ [])
  unfolding RegularAs Regular
  Regular-projection op h r = subst (λ k. RegularAs k op) (is_projection-eq op.kind h) r

  pub Regular-calc :
      (op : Operation) → is_add_calc op.kind ≡ true → Regular op → is_fixed_barrier op ≡ false
  unfolding RegularAs Regular
  Regular-calc op h r = subst (λ k. RegularAs k op) (is_add_calc-eq op.kind h) r

  pub Regular-cast :
      (op : Operation)
      → is_type_cast op.kind ≡ true
      → Regular op
      → (is_fixed_barrier op ≡ false) × (op.output_columns ≡ cast_columns op.config)
  unfolding RegularAs Regular
  Regular-cast op h r = subst (λ k. RegularAs k op) (is_type_cast-eq op.kind h) r

  -- What a rule makes of regular operations is regular, and `_validate_rewrite` lets it pass.
  unfoldable pub RegularRule : (Operation → Operation → Rewrite) → Type 0
  RegularRule rule =
      (l r : Operation) (out : List Operation)
      → Regular l
      → Regular r
      → rule l r ≡ rewritten out
      → Alike (l ∷ r ∷ []) out × All Regular out

  -- The rule does not raise on regular operations.
  unfoldable pub SafeRule : (Operation → Operation → Rewrite) → Type 0
  SafeRule rule = (l r : Operation) → Regular l → Regular r → rule l r ≢ raises_key_error

  pub if-Safe :
      (b : Bool) (out : List Operation)
      → (if b then rewritten out else unchanged) ≢ raises_key_error
  if-Safe true out h = cc
  if-Safe false out h = cc

  pub merge_filters-Safe : SafeRule merge_filters
  unfolding SafeRule merge_filters
  merge_filters-Safe l r hl hr h =
      elim (Bool-cases
        (is_filter l.kind && is_filter r.kind && l.properties.total && r.properties.total)) [
          | inl met ↦
              let (fl, ol, a, is_a) = Regular-filter l (ground arith) hl in
              let (fr, or, b, is_b) = Regular-filter r (ground arith) hr in
              let raised : merged_filters l r l.config.sql r.config.sql ≡ raises_key_error =
                ground arith in
              merged_filters-ne-raises l r l.config.sql r.config.sql a b is_a is_b raised
          | inr unmet ↦ absurd (ground arith)
        ]

  pub merge_filters-Regular : RegularRule merge_filters
  unfolding RegularRule merge_filters Regular RegularAs is_fixed_barrier
  merge_filters-Regular l r out hl hr h =
      let (c, a, b, is_a, is_b, e) = merge_filters-some l r out h in
      let merged = merged_filter l r a b in
      let kl : is_filter l.kind ≡ true = ground arith in
      let (fl, ol, _, _) = Regular-filter l kl hl in
      let (fr, or, _, _) = Regular-filter r (ground arith) hr in
      subst (λ o. Alike (l ∷ r ∷ []) o × All Regular o) e
        (
          Alike-free (l ∷ r ∷ []) (merged ∷ []) (fl, (fr, tt)) (fl, tt)
              λ x. no_columns l.output_columns r.output_columns x or,
          (
            subst (λ k. RegularAs k merged) (sym (is_filter-eq l.kind kl))
                (fl, ol, and_sql a b, refl),
            tt,
          ),
        )
    where
      no_columns :
          (a b : List String) (x : String)
          → b ≡ []
          → contains x (a ++ (b ++ [])) ≡ contains x (a ++ [])
      no_columns a b x e = ap (λ xs. contains x (a ++ (xs ++ []))) e

  pub merge_calcs-Regular : RegularRule merge_calcs
  unfolding RegularRule merge_calcs Regular RegularAs is_fixed_barrier
  merge_calcs-Regular l r out hl hr h =
      let (c, e) =
        if-some
          (is_add_calc l.kind
            && is_add_calc r.kind
            && not (
                overlap l.output_columns r.input_columns
                || overlap r.output_columns l.input_columns))
          (merged_calc l r ∷ []) out h in
      let kl : is_add_calc l.kind ≡ true = ground arith in
      let fl = Regular-calc l kl hl in
      let fr = Regular-calc r (ground arith) hr in
      subst (λ o. Alike (l ∷ r ∷ []) o × All Regular o) e
        (
          Alike-free (l ∷ r ∷ []) (merged_calc l r ∷ []) (fl, (fr, tt)) (fl, tt)
              λ x. ap (contains x) (sym (append_assoc l.output_columns r.output_columns [])),
          (subst (λ k. RegularAs k (merged_calc l r)) (sym (is_add_calc-eq l.kind kl)) fl, tt),
        )

  pub drop_cast-Regular : RegularRule drop_cast
  unfolding RegularRule drop_cast Regular config_eq
  drop_cast-Regular l r out hl hr h =
      let (c, e) =
        if-some (is_type_cast l.kind && is_type_cast r.kind && config_eq l.config r.config) (l ∷ [])
          out h in
      let (fl, ol) = Regular-cast l (ground arith) hl in
      let (fr, or) = Regular-cast r (ground arith) hr in
      let same = config_eq-eq l.config r.config (ground arith) in
      subst (λ o. Alike (l ∷ r ∷ []) o × All Regular o) e
        (
          Alike-free (l ∷ r ∷ []) (l ∷ []) (fl, (fr, tt)) (fl, tt)
              λ x. twice l.output_columns r.output_columns x (ol ∙ ap cast_columns same ∙ sym or),
          (hl, tt),
        )
    where
      twice :
          (a b : List String) (x : String)
          → a ≡ b
          → contains x (a ++ (b ++ [])) ≡ contains x (a ++ [])
      twice a b x e =
          subst (λ xs. contains x (a ++ (xs ++ [])) ≡ contains x (a ++ [])) e
            (ground (arith, contains-append x a (a ++ []), contains-append x a []))

  -- Two operations in the other order.
  swapped-Regular :
      (l r : Operation)
      → is_fixed_barrier l ≡ false
      → is_fixed_barrier r ≡ false
      → Alike (l ∷ r ∷ []) (r ∷ l ∷ [])
  swapped-Regular l r fl fr =
      Alike-free (l ∷ r ∷ []) (r ∷ l ∷ []) (fl, (fr, tt)) (fr, (fl, tt))
        λ x. swapped l.output_columns r.output_columns x
    where
      swapped :
          (a b : List String) (x : String)
          → contains x (a ++ (b ++ [])) ≡ contains x (b ++ (a ++ []))
      swapped a b x = ground (
        arith,
        contains-append x a (b ++ []),
        contains-append x b [],
        contains-append x b (a ++ []),
        contains-append x a [],
      )

  pub filter_over_projection-Regular : RegularRule filter_over_projection
  unfolding RegularRule filter_over_projection
  filter_over_projection-Regular l r out hl hr h =
      let (c, e) =
        if-some
          (is_projection l.kind
            && is_filter r.kind
            && (is_empty l.config.include || subset r.input_columns l.config.include)
            && not (overlap r.input_columns l.config.exclude))
          (r ∷ l ∷ []) out h in
      let free = (Regular-projection l (ground arith) hl).0 in
      subst (λ o. Alike (l ∷ r ∷ []) o × All Regular o) e
        (swapped-Regular l r free (Regular-filter r (ground arith) hr).0, (hr, (hl, tt)))

  pub filter_over_calc-Regular : RegularRule filter_over_calc
  unfolding RegularRule filter_over_calc
  filter_over_calc-Regular l r out hl hr h =
      let (c, e) =
        if-some
          (is_add_calc l.kind && is_filter r.kind && not (overlap l.output_columns r.input_columns))
          (r ∷ l ∷ []) out h in
      let free = Regular-calc l (ground arith) hl in
      subst (λ o. Alike (l ∷ r ∷ []) o × All Regular o) e
        (swapped-Regular l r free (Regular-filter r (ground arith) hr).0, (hr, (hl, tt)))

  pub filter_over_cast-Regular : RegularRule filter_over_cast
  unfolding RegularRule filter_over_cast
  filter_over_cast-Regular l r out hl hr h =
      let (c, e) =
        if-some
          (is_type_cast l.kind
            && is_filter r.kind
            && l.properties.total
            && l.config.order_preserving
            && not (overlap l.output_columns r.input_columns))
          (r ∷ l ∷ []) out h in
      let free = (Regular-cast l (ground arith) hl).0 in
      subst (λ o. Alike (l ∷ r ∷ []) o × All Regular o) e
        (swapped-Regular l r free (Regular-filter r (ground arith) hr).0, (hr, (hl, tt)))
