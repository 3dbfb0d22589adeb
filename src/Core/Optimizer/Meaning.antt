-- ===== src/Core/Optimizer/Meaning.antt =====
-- The loop of `optimize_logical_plan` of src/smoking_data/core/optimizer.py and what its plans mean.
use smoking_data.Prelude.{
  ◌≡◌, refl, sym, ap, subst, ◌∙◌, inl, inr, String, true, Option, none, some, List, [], ◌∷◌, ◌++◌,
  arith, All, All-append, is_empty,
}
use smoking_data.Core.Optimizer.{
  Operation, Rewrite, rewritten, is_identity, rewrite_pair, remove_identity, merge_filters,
  merge_calcs, drop_cast, filter_over_projection, filter_over_calc, filter_over_cast,
}
use smoking_data.Core.Optimizer.Loop.{RewriteRule, rules}
use smoking_data.Core.Optimizer.Engine.{
  Row, Engine, RowOutcome, keeps, each, meaning, apply_kind, and_then, project_row,
}
use smoking_data.Core.Optimizer.Shape.{rewrite_pair-cases, remove_identity-cases}
use smoking_data.Core.Optimizer.Sound.{Sound}
use smoking_data.Core.Optimizer.Rows.{SameMeaning, RuleSound, and_then-congr, projection-Acts, Acts}
use smoking_data.Core.Optimizer.Filters.{merge_filters-Sound, filter_over_projection-Sound}
use smoking_data.Core.Optimizer.Calcs.{merge_calcs-Sound, filter_over_calc-Sound}
use smoking_data.Core.Optimizer.Casts.{filter_over_cast-Sound, drop_cast-Sound}

module _ (engine : Engine) where
  open engine use {Value, project, project-nil}

  and_then-and_then :
      (o : Option (List (Row Value))) (f g : List (Row Value) → Option (List (Row Value)))
      → and_then engine (and_then engine o f) g
        ≡ and_then engine o (λ rows. and_then engine (f rows) g)
  and_then-and_then none f g = refl
  and_then-and_then (some rows) f g = refl

  meaning-append :
      (a b : List Operation) (rows : List (Row Value))
      → meaning engine (a ++ b) rows ≡ and_then engine (meaning engine a rows) (meaning engine b)
  unfolding meaning
  meaning-append [] b rows = refl
  meaning-append (op ∷ a) b rows =
      and_then-congr engine (apply_kind engine op.kind op rows) (meaning engine (a ++ b))
        (λ new. and_then engine (meaning engine a new) (meaning engine b)) (meaning-append a b)
      ∙ sym (
          and_then-and_then (apply_kind engine op.kind op rows) (meaning engine a)
            (meaning engine b))

  same-cons :
      (op : Operation) (a b : List Operation)
      → SameMeaning engine a b
      → SameMeaning engine (op ∷ a) (op ∷ b)
  unfolding SameMeaning meaning
  same-cons op a b h rows =
      and_then-congr engine (apply_kind engine op.kind op rows) (meaning engine a)
        (meaning engine b) h

  same-append :
      (a b ops : List Operation) → SameMeaning engine a b → SameMeaning engine (a ++ ops) (b ++ ops)
  unfolding SameMeaning
  same-append a b ops h rows =
      meaning-append a ops rows
      ∙ ap (λ o. and_then engine o (meaning engine ops)) (h rows)
      ∙ sym (meaning-append b ops rows)

  pub same_trans :
      (a b c : List Operation)
      → SameMeaning engine a b
      → SameMeaning engine b c
      → SameMeaning engine a c
  unfolding SameMeaning
  same_trans a b c h k rows = h rows ∙ k rows

  -- What a rule makes of a sound plan means the same and is sound.
  unfoldable pub PlanSound : (List Operation → Rewrite) → Type 0
  PlanSound rewrite =
      (ops out : List Operation)
      → All (Sound engine) ops
      → rewrite ops ≡ rewritten out
      → SameMeaning engine ops out × All (Sound engine) out

  rewrite_pair-Sound :
      (rule : Operation → Operation → Rewrite)
      → RuleSound engine rule
      → PlanSound (rewrite_pair rule)
  unfolding PlanSound rewrite_pair RuleSound
  rewrite_pair-Sound rule sound [] out s h = cc
  rewrite_pair-Sound rule sound (x ∷ []) out s h = cc
  rewrite_pair-Sound rule sound (x ∷ y ∷ ops) out (sx, (sy, ss)) h =
      elim (rewrite_pair-cases rule x y ops out h) [
        | inl (replaced, e, e') ↦
            let (same, sr) = sound x y replaced sx sy e in
            subst (λ o. SameMeaning engine (x ∷ y ∷ ops) o × All (Sound engine) o) e'
              (
                same-append (x ∷ y ∷ []) replaced ops same,
                All-append (Sound engine) replaced ops sr ss,
              )
        | inr (rest, e, e') ↦
            let (same, sr) = rewrite_pair-Sound rule sound (y ∷ ops) rest (sy, ss) e in
            subst (λ o. SameMeaning engine (x ∷ y ∷ ops) o × All (Sound engine) o) e'
              (same-cons x (y ∷ ops) rest same, (sx, sr))
      ]

  each-keeps :
      (f : Row Value → RowOutcome Value) (rows : List (Row Value))
      → ((row : Row Value) → f row ≡ keeps row)
      → each f rows ≡ some rows
  unfolding each
  each-keeps f [] h = refl
  each-keeps f (row ∷ rows) h = rw (h row, each-keeps f rows h) refl

  empty_list : {A : Type 0} (xs : List A) → is_empty xs ≡ true → xs ≡ []
  empty_list [] h = refl
  empty_list (x ∷ xs) h = cc

  identity_row :
      (include exclude : List String) (row : Row Value)
      → is_empty include ≡ true
      → is_empty exclude ≡ true
      → keeps (project include exclude row) ≡ keeps row
  identity_row include exclude row hi he = ap keeps (
      ap (λ i. project i exclude row) (empty_list include hi)
      ∙ ap (λ e. project [] e row) (empty_list exclude he)
      ∙ project-nil row)

  same-identity :
      (op : Operation) (ops : List Operation)
      → is_identity op ≡ true
      → SameMeaning engine (op ∷ ops) ops
  unfolding SameMeaning meaning Acts
  same-identity op ops h rows =
      ap (λ o. and_then engine o (meaning engine ops))
        (projection-Acts engine op (ground arith) rows
          ∙ each-keeps (project_row engine op) rows (λ row.
            identity_row op.config.include op.config.exclude row (ground arith) (ground arith)))

  remove_identity-Sound : PlanSound remove_identity
  unfolding PlanSound remove_identity
  remove_identity-Sound [] out s h = cc
  remove_identity-Sound (op ∷ ops) out (so, ss) h = elim (remove_identity-cases op ops out h) [
    | inl (e, e') ↦
        subst (λ o. SameMeaning engine (op ∷ ops) o × All (Sound engine) o) e'
          (same-identity op ops e, ss)
    | inr (rest, e, e') ↦
        let (same, sr) = remove_identity-Sound ops rest ss e in
        subst (λ o. SameMeaning engine (op ∷ ops) o × All (Sound engine) o) e'
          (same-cons op ops rest same, (so, sr))
  ]

  pub rules-Sound : All (λ (rule : RewriteRule). PlanSound rule.rewrite) rules
  unfolding rules
  rules-Sound = (
    remove_identity-Sound,
    (
      rewrite_pair-Sound merge_filters (merge_filters-Sound engine),
      (
        rewrite_pair-Sound merge_calcs (merge_calcs-Sound engine),
        (
          rewrite_pair-Sound drop_cast (drop_cast-Sound engine),
          (
            rewrite_pair-Sound filter_over_projection (filter_over_projection-Sound engine),
            (
              rewrite_pair-Sound filter_over_calc (filter_over_calc-Sound engine),
              (rewrite_pair-Sound filter_over_cast (filter_over_cast-Sound engine), tt),
            ),
          ),
        ),
      ),
    ),
  )
