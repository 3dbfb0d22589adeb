-- ===== src/Core/Optimizer/Alike.antt =====
-- Plans that are alike to `_validate_rewrite` of src/smoking_data/core/optimizer.py.
use smoking_data.Prelude.{
  ◌≡◌, refl, sym, ap, ◌∙◌, Bool, false, ◌||◌, String, List, [], ◌∷◌, ◌++◌, keep, All, arith,
}
use smoking_data.Prelude.Names.{contains}
use smoking_data.Prelude.Names.Laws.{contains-append}
use smoking_data.Core.Optimizer.{Operation, is_fixed_barrier}
use smoking_data.Core.Optimizer.Loop.{side_effects, barriers, produced, ids}
use smoking_data.Core.Optimizer.Kept.{Alike}

pub side_effects-free :
    (op : Operation) (ops : List Operation)
    → is_fixed_barrier op ≡ false
    → side_effects (op ∷ ops) ≡ side_effects ops
unfolding is_fixed_barrier
side_effects-free op ops h = ground arith

pub barriers-free :
    (op : Operation) (ops : List Operation)
    → is_fixed_barrier op ≡ false
    → barriers (op ∷ ops) ≡ barriers ops
barriers-free op ops h = ground arith

-- Operations that are no barriers matter by their columns only.
pub Alike-free :
    (a b : List Operation)
    → All (λ op. is_fixed_barrier op ≡ false) a
    → All (λ op. is_fixed_barrier op ≡ false) b
    → ((c : String) → contains c (produced a) ≡ contains c (produced b))
    → Alike a b
unfolding Alike
Alike-free a b ha hb h =
    (none_of a ha ∙ sym (none_of b hb), no_barriers a ha ∙ sym (no_barriers b hb), h)
  where
    none_of :
        (xs : List Operation) → All (λ op. is_fixed_barrier op ≡ false) xs → side_effects xs ≡ []
    none_of [] h = refl
    none_of (x ∷ xs) h = side_effects-free x xs h.0 ∙ none_of xs h.1

    no_barriers :
        (xs : List Operation) → All (λ op. is_fixed_barrier op ≡ false) xs → barriers xs ≡ []
    no_barriers [] h = refl
    no_barriers (x ∷ xs) h = barriers-free x xs h.0 ∙ no_barriers xs h.1

ids-append :
    (p : Operation → Bool) (a b : List Operation)
    → ids (keep p (a ++ b)) ≡ ids (keep p a) ++ ids (keep p b)
ids-append p [] b = refl
ids-append p (x ∷ a) b = ground (arith, ids-append p a b)

produced-append :
    (a b : List Operation) (c : String)
    → contains c (produced (a ++ b)) ≡ (contains c (produced a) || contains c (produced b))
produced-append [] b c = refl
produced-append (x ∷ a) b c = ground (
  arith,
  produced-append a b c,
  contains-append c x.output_columns (produced (a ++ b)),
  contains-append c x.output_columns (produced a),
)

pub Alike-append : (a b ops : List Operation) → Alike a b → Alike (a ++ ops) (b ++ ops)
unfolding Alike
Alike-append a b ops (s, r, p) = (
  ids-append (λ op. op.properties.side_effect) a ops
      ∙ ap (λ xs. xs ++ side_effects ops) s
      ∙ sym (ids-append (λ op. op.properties.side_effect) b ops),
  ids-append is_fixed_barrier a ops
      ∙ ap (λ xs. xs ++ barriers ops) r
      ∙ sym (ids-append is_fixed_barrier b ops),
  λ c. ground (arith, produced-append a ops c, produced-append b ops c, p c),
)

pub Alike-cons : (x : Operation) (a b : List Operation) → Alike a b → Alike (x ∷ a) (x ∷ b)
unfolding Alike
Alike-cons x a b (s, r, p) = (
  ids-append (λ op. op.properties.side_effect) (x ∷ []) a
      ∙ ap (λ xs. side_effects (x ∷ []) ++ xs) s
      ∙ sym (ids-append (λ op. op.properties.side_effect) (x ∷ []) b),
  ids-append is_fixed_barrier (x ∷ []) a
      ∙ ap (λ xs. barriers (x ∷ []) ++ xs) r
      ∙ sym (ids-append is_fixed_barrier (x ∷ []) b),
  λ c. ground (
    arith,
    contains-append c x.output_columns (produced a),
    contains-append c x.output_columns (produced b),
    p c,
  ),
)

-- An operation that is no barrier and has no columns.
pub Alike-drop :
    (op : Operation) (ops : List Operation)
    → is_fixed_barrier op ≡ false
    → op.output_columns ≡ []
    → Alike (op ∷ ops) ops
unfolding Alike
Alike-drop op ops h e = (
  side_effects-free op ops h,
  barriers-free op ops h,
  λ c. ap (λ xs. contains c (xs ++ produced ops)) e,
)
