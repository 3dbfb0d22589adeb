-- ===== src/Core/Optimizer/Sound.antt =====
-- What the rules of src/smoking_data/core/optimizer.py take for granted of an operation: that its declared
-- columns and properties are true of what the engine does.
use smoking_data.Prelude.{
  ◌≡◌, refl, sym, String, Bool, true, false, not, ◌&&◌, map, Option, none, some, List, [], ◌∷◌,
  ◌++◌, arith, All, eq_iff,
}
use smoking_data.Prelude.Names.{contains, union}
use smoking_data.Prelude.Names.Laws.{contains-append, contains-union}
use smoking_data.Core.Operations.{OperationKind, filter, add_calc, type_cast}
use smoking_data.Core.Optimizer.{
  Operation, Expression, Cast, casts_eq, sql_eq, overlap, subset, names_eq, expressions_eq, bool_eq,
  config_eq, Config,
}
use smoking_data.Core.Optimizer.Engine.{Row, Engine, is_window, predicate, cast}

-- Two rows are alike in some columns.
unfoldable pub Agree : {Value : Type 0} → List String → Row Value → Row Value → Type 0
Agree columns a b = (c : String) → contains c columns ≡ true → a c ≡ b c

pub Agree-union :
    {Value : Type 0} (xs ys : List String) (a b : Row Value)
    → Agree (union [] (xs ++ ys)) a b
    → Agree xs a b × Agree ys a b
unfolding Agree
Agree-union xs ys a b h = (
  λ c k. h c (ground (arith, contains-union c [] (xs ++ ys), contains-append c xs ys)),
  λ c k. h c (ground (arith, contains-union c [] (xs ++ ys), contains-append c xs ys)),
)

pub overlap-false :
    (xs ys : List String) (c : String)
    → overlap xs ys ≡ false
    → contains c ys ≡ true
    → contains c xs ≡ false
overlap-false [] ys c h k = refl
overlap-false (x ∷ xs) ys c h k = ground (arith, overlap-false xs ys c, eq_iff c x)

pub overlap-false_of :
    (xs ys : List String) (c : String)
    → overlap xs ys ≡ false
    → contains c xs ≡ true
    → contains c ys ≡ false
overlap-false_of [] ys c h k = cc
overlap-false_of (x ∷ xs) ys c h k = ground (arith, overlap-false_of xs ys c, eq_iff c x)

pub subset-contains :
    (xs ys : List String) (c : String)
    → subset xs ys ≡ true
    → contains c xs ≡ true
    → contains c ys ≡ true
subset-contains [] ys c h k = cc
subset-contains (x ∷ xs) ys c h k = ground (arith, subset-contains xs ys c, eq_iff c x)

pub names_eq-eq : (xs ys : List String) → names_eq xs ys ≡ true → xs ≡ ys
names_eq-eq [] [] h = refl
names_eq-eq [] (y ∷ ys) h = cc
names_eq-eq (x ∷ xs) [] h = cc
names_eq-eq (x ∷ xs) (y ∷ ys) h = ground (arith, names_eq-eq xs ys, eq_iff x y)

expressions_eq-eq : (xs ys : List Expression) → expressions_eq xs ys ≡ true → xs ≡ ys
expressions_eq-eq [] [] h = refl
expressions_eq-eq [] (y ∷ ys) h = cc
expressions_eq-eq (x ∷ xs) [] h = cc
expressions_eq-eq (x ∷ xs) (y ∷ ys) h =
    ground (arith, expressions_eq-eq xs ys, eq_iff x.alias y.alias, eq_iff x.text y.text)

casts_eq-eq : (xs ys : List Cast) → casts_eq xs ys ≡ true → xs ≡ ys
casts_eq-eq [] [] h = refl
casts_eq-eq [] (y ∷ ys) h = cc
casts_eq-eq (x ∷ xs) [] h = cc
casts_eq-eq (x ∷ xs) (y ∷ ys) h =
    ground (arith, casts_eq-eq xs ys, eq_iff x.name y.name, eq_iff x.spec y.spec)

sql_eq-eq : (a b : Option String) → sql_eq a b ≡ true → a ≡ b
sql_eq-eq none none h = refl
sql_eq-eq none (some b) h = cc
sql_eq-eq (some a) none h = cc
sql_eq-eq (some a) (some b) h = ground (arith, eq_iff a b)

bool_eq-eq : (a b : Bool) → bool_eq a b ≡ true → a ≡ b
bool_eq-eq true b h = sym h
bool_eq-eq false true h = cc
bool_eq-eq false false h = refl

pub config_eq-eq : (a b : Config) → config_eq a b ≡ true → a ≡ b
unfolding config_eq
config_eq-eq a b h = ground (
  arith,
  sql_eq-eq a.sql b.sql,
  casts_eq-eq a.casts b.casts,
  names_eq-eq a.include b.include,
  names_eq-eq a.exclude b.exclude,
  expressions_eq-eq a.expressions b.expressions,
  bool_eq-eq a.order_preserving b.order_preserving,
  eq_iff a.others b.others,
)

abbrev pub cast_names : List Cast → List String
cast_names casts = map (λ (c : Cast). c.name) casts

abbrev pub names_once : List String → Bool
names_once [] = true
names_once (x ∷ xs) = not (contains x xs) && names_once xs

module _ (engine : Engine) where
  open engine use {Value, eval}

  -- The predicate reads the input columns only, and has a value on every row if the properties say so.
  unfoldable pub FilterSound : Operation → Type 0
  FilterSound op =
      ((a b : Row Value)
        → Agree op.input_columns a b
        → predicate engine op.config.sql op.config.others a
          ≡ predicate engine op.config.sql op.config.others b)
      × (op.properties.total ≡ true
          → (row : Row Value)
          → (b : Bool) × (predicate engine op.config.sql op.config.others row ≡ some b))

  -- The expression reads the input columns only, has a value on every row, and its alias is declared.
  unfoldable pub ExpressionSound : List String → List String → Expression → Type 0
  ExpressionSound ins outs e =
      ((a b : Row Value) → Agree ins a b → eval e.text a ≡ eval e.text b)
      × ((row : Row Value) → (v : Value) × (eval e.text row ≡ some v))
      × (contains e.alias outs ≡ true)

  -- A calculation without a window expression.
  unfoldable pub CalcSound : Operation → Type 0
  CalcSound op =
      (is_window op ≡ false)
      × All (ExpressionSound op.input_columns op.output_columns) op.config.expressions

  -- A cast names each column once, changes the output columns only, and fails on no row if the properties say so.
  unfoldable pub CastSound : Operation → Type 0
  CastSound op =
      (names_once (cast_names op.config.casts) ≡ true)
      × ((row cast_row : Row Value)
          → cast engine op.config row ≡ some cast_row
          → (c : String) → contains c op.output_columns ≡ false
          → cast_row c ≡ row c)
      × (op.properties.total ≡ true
          → (row : Row Value)
          → (cast_row : Row Value) × (cast engine op.config row ≡ some cast_row))

  unfoldable pub SoundAs : OperationKind → Operation → Type 0
  SoundAs filter op = FilterSound op
  SoundAs add_calc op = CalcSound op
  SoundAs type_cast op = CastSound op
  SoundAs _ op = Unit

  unfoldable pub Sound : Operation → Type 0
  Sound op = SoundAs op.kind op
