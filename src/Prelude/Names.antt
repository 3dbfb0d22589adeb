-- ===== src/Prelude/Names.antt =====
-- Lists of names used as Python sets and dictionaries' keys.
pub mod Laws
pub mod Sizes
use Prim.Native.String.{String}
use mathlib.Core.Bool.{Bool, true, false, not, ◌&&◌, ◌||◌}
use mathlib.Core.List.{List, [], ◌∷◌, ◌++◌}
use text.Mathlib.Text.{◌==◌}
use smoking_data.Prelude.Tests.{if◌then◌else◌}

abbrev pub contains : String → List String → Bool
contains x [] = false
contains x (y ∷ ys) = (x == y) || contains x ys

-- `set.add`
abbrev pub add_name : String → List String → List String
add_name x s = if contains x s then s else s ++ x ∷ []

-- `s | t`
abbrev pub union : List String → List String → List String
union s [] = s
union s (x ∷ xs) = union (add_name x s) xs

-- `s - {x}`
abbrev pub remove_name : String → List String → List String
remove_name x [] = []
remove_name x (y ∷ ys) = let rest = remove_name x ys in if x == y then rest else y ∷ rest

-- `[d for d in ds if d not in s]`
abbrev pub diff : List String → List String → List String
diff [] s = []
diff (d ∷ ds) s = let rest = diff ds s in if contains d s then rest else d ∷ rest

-- No name stands twice.
abbrev pub unique : List String → Bool
unique [] = true
unique (x ∷ xs) = not (contains x xs) && unique xs
