-- ===== src/Core/Optimizer/Examples/Marks.antt =====
-- Predicates on one column x: the column has a value wherever the text has an x.
use Prim.Native.Char.{code}
use Prim.Native.String.append
use Prim.Native.String.{String, [], ◌∷◌, ◌++◌}
use mathlib.Core.Path.{◌≡◌, ap, ◌∙◌}
use mathlib.Core.Bool.{Bool, false, ◌||◌}
use native.Mathlib.Omega.{arith}
use smoking_data.Prelude.{◌==◌}

abbrev pub marked : String → Bool
marked [] = false
marked (c ∷ s) = code c == 120 || marked s

pub marked-append : (s t : String) → marked (s ++ t) ≡ (marked s || marked t)
marked-append [] t = ap marked (append.nil t)
marked-append (c ∷ s) t = ap marked (append.cons c s t) ∙ ground (arith, marked-append s t)
