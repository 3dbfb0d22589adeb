-- ===== src/Core/Optimizer/Shape.antt =====
-- What the loops of the rules of src/smoking_data/core/optimizer.py return.
use smoking_data.Prelude.{◌≡◌, ◌≢◌, refl, ◌⊎◌, inl, inr, Bool, true, false, List, [], ◌∷◌, ◌++◌}
use smoking_data.Core.Optimizer.{
  Operation, Rewrite, unchanged, rewritten, raises_key_error, behind, is_identity, rewrite_pair,
  remove_identity,
}

behind-some :
    (x : Operation) (later : Rewrite) (out : List Operation)
    → behind x later ≡ rewritten out
    → (rest : List Operation) × (later ≡ rewritten rest) × (x ∷ rest ≡ out)
behind-some x unchanged out h = cc
behind-some x raises_key_error out h = cc
behind-some x (rewritten rest) out h = (rest, refl, cc)

pub behind-raises :
    (x : Operation) (later : Rewrite) → behind x later ≡ raises_key_error → later ≡ raises_key_error
behind-raises x unchanged h = cc
behind-raises x raises_key_error h = refl
behind-raises x (rewritten rest) h = cc

first_or_later :
    (here later : Rewrite) (x : Operation) (ops out : List Operation)
    → elim here [
      | rewritten replaced ↦ rewritten (replaced ++ ops)
      | raises_key_error ↦ raises_key_error
      | unchanged ↦ behind x later
    ]
      ≡ rewritten out
    → ((replaced : List Operation) × (here ≡ rewritten replaced) × (replaced ++ ops ≡ out))
      ⊎ ((rest : List Operation) × (later ≡ rewritten rest) × (x ∷ rest ≡ out))
first_or_later (rewritten replaced) later x ops out h = inl (replaced, refl, cc)
first_or_later raises_key_error later x ops out h = cc
first_or_later unchanged later x ops out h = inr (behind-some x later out h)

-- The rule applied to the first two operations, or further on.
pub rewrite_pair-cases :
    (rule : Operation → Operation → Rewrite) (x y : Operation) (ops out : List Operation)
    → rewrite_pair rule (x ∷ y ∷ ops) ≡ rewritten out
    → ((replaced : List Operation) × (rule x y ≡ rewritten replaced) × (replaced ++ ops ≡ out))
      ⊎ ((rest : List Operation) × (rewrite_pair rule (y ∷ ops) ≡ rewritten rest)
          × (x ∷ rest ≡ out))
unfolding rewrite_pair
rewrite_pair-cases rule x y ops out h =
    first_or_later (rule x y) (rewrite_pair rule (y ∷ ops)) x ops out h

raised_here_or_later :
    (here later : Rewrite) (x : Operation) (ops : List Operation)
    → elim here [
      | rewritten replaced ↦ rewritten (replaced ++ ops)
      | raises_key_error ↦ raises_key_error
      | unchanged ↦ behind x later
    ]
      ≡ raises_key_error
    → (here ≡ raises_key_error) ⊎ (later ≡ raises_key_error)
raised_here_or_later (rewritten replaced) later x ops h = cc
raised_here_or_later raises_key_error later x ops h = inl refl
raised_here_or_later unchanged later x ops h = inr (behind-raises x later h)

-- A loop that raises does so on the first two operations, or further on.
pub rewrite_pair-raises :
    (rule : Operation → Operation → Rewrite) (x y : Operation) (ops : List Operation)
    → rewrite_pair rule (x ∷ y ∷ ops) ≡ raises_key_error
    → (rule x y ≡ raises_key_error) ⊎ (rewrite_pair rule (y ∷ ops) ≡ raises_key_error)
unfolding rewrite_pair
rewrite_pair-raises rule x y ops h =
    raised_here_or_later (rule x y) (rewrite_pair rule (y ∷ ops)) x ops h

dropped_or_later :
    (here : Bool) (later : Rewrite) (op : Operation) (ops out : List Operation)
    → elim here [ true ↦ rewritten ops | false ↦ behind op later ] ≡ rewritten out
    → ((here ≡ true) × (ops ≡ out))
      ⊎ ((rest : List Operation) × (later ≡ rewritten rest) × (op ∷ rest ≡ out))
dropped_or_later true later op ops out h = inl (refl, cc)
dropped_or_later false later op ops out h = inr (behind-some op later out h)

pub remove_identity-cases :
    (op : Operation) (ops out : List Operation)
    → remove_identity (op ∷ ops) ≡ rewritten out
    → ((is_identity op ≡ true) × (ops ≡ out))
      ⊎ ((rest : List Operation) × (remove_identity ops ≡ rewritten rest) × (op ∷ rest ≡ out))
unfolding remove_identity
remove_identity-cases op ops out h =
    dropped_or_later (is_identity op) (remove_identity ops) op ops out h

never_raised :
    (here : Bool) (later : Rewrite) (op : Operation) (ops : List Operation)
    → later ≢ raises_key_error
    → elim here [ true ↦ rewritten ops | false ↦ behind op later ] ≢ raises_key_error
never_raised true later op ops h e = cc
never_raised false later op ops h e = h (behind-raises op later e)

pub remove_identity-ne-raises : (ops : List Operation) → remove_identity ops ≢ raises_key_error
unfolding remove_identity
remove_identity-ne-raises [] h = cc
remove_identity-ne-raises (op ∷ ops) h =
    never_raised (is_identity op) (remove_identity ops) op ops (remove_identity-ne-raises ops) h
