-- ===== src/Core/Optimizer.antt =====
-- The rewrite rules of src/smoking_data/core/optimizer.py, on the operations of a logical plan. A column
-- of an operation's output is its name; the lineage of aliases, which no rule reads, is left out.
pub mod Loop
pub mod Engine
pub mod Local
pub mod Sound
pub mod Shape
pub mod Rows
pub mod Filters
pub mod Calcs
pub mod Casts
pub mod Rounds
pub mod Meaning
pub mod Refinement
pub mod Kept
pub mod Alike
pub mod Regular
pub mod Accepted
mod Examples
use smoking_data.Prelude.{
  String, ◌<>◌, Bool, true, false, not, ◌&&◌, ◌||◌, Option, none, some, List, [], ◌∷◌, ◌++◌, map,
  if◌then◌else◌, is_empty, all, any, keep, str_eq,
}
use smoking_data.Prelude.Names.{contains, union}
use smoking_data.Core.Operations.{
  OperationKind, filter, type_cast, add_calc, reference_replace, list_restore, sort_first,
  projection, pivot, join, partition_write, OperationProperties,
}

pub record Expression : Type 0 where
  pub alias : String
  pub text : String

-- A column that a cast converts; the text holds the target type and the other keys of the entry.
pub record Cast : Type 0 where
  pub name : String
  pub spec : String

-- The keys of `config` that a rule or the engine reads. A missing `sql` is `none`, another missing key empty;
-- and as one text the other keys, with the names of the missing ones. `expression_ir` of a calculation is the
-- parse of its expressions.
pub record Config : Type 0 where
  pub sql : Option String
  pub casts : List Cast
  pub include : List String
  pub exclude : List String
  pub expressions : List Expression
  pub order_preserving : Bool
  pub others : String

pub record Operation : Type 0 where
  pub operation_id : String
  pub kind : OperationKind
  pub config : Config
  pub input_columns : List String
  pub output_columns : List String
  pub properties : OperationProperties

abbrev pub is_filter : OperationKind → Bool
is_filter filter = true
is_filter _ = false

abbrev pub is_projection : OperationKind → Bool
is_projection projection = true
is_projection _ = false

abbrev pub is_add_calc : OperationKind → Bool
is_add_calc add_calc = true
is_add_calc _ = false

abbrev pub is_type_cast : OperationKind → Bool
is_type_cast type_cast = true
is_type_cast _ = false

abbrev pub barrier_kind : OperationKind → Bool
barrier_kind reference_replace = true
barrier_kind list_restore = true
barrier_kind sort_first = true
barrier_kind pivot = true
barrier_kind join = true
barrier_kind partition_write = true
barrier_kind _ = false

unfoldable pub is_fixed_barrier : Operation → Bool
is_fixed_barrier op =
    op.properties.side_effect
    || op.properties.requires_complete_group
    || op.properties.order_sensitive
    || not op.properties.deterministic
    || barrier_kind op.kind

abbrev pub names_eq : List String → List String → Bool
names_eq [] [] = true
names_eq (x ∷ xs) (y ∷ ys) = str_eq x y && names_eq xs ys
names_eq _ _ = false

abbrev pub expressions_eq : List Expression → List Expression → Bool
expressions_eq [] [] = true
expressions_eq (x ∷ xs) (y ∷ ys) =
    str_eq x.alias y.alias && str_eq x.text y.text && expressions_eq xs ys
expressions_eq _ _ = false

abbrev pub casts_eq : List Cast → List Cast → Bool
casts_eq [] [] = true
casts_eq (x ∷ xs) (y ∷ ys) = str_eq x.name y.name && str_eq x.spec y.spec && casts_eq xs ys
casts_eq _ _ = false

abbrev pub sql_eq : Option String → Option String → Bool
sql_eq none none = true
sql_eq (some a) (some b) = str_eq a b
sql_eq _ _ = false

abbrev pub bool_eq : Bool → Bool → Bool
bool_eq true b = b
bool_eq false b = not b

unfoldable pub config_eq : Config → Config → Bool
config_eq a b =
    sql_eq a.sql b.sql
    && casts_eq a.casts b.casts
    && names_eq a.include b.include
    && names_eq a.exclude b.exclude
    && expressions_eq a.expressions b.expressions
    && bool_eq a.order_preserving b.order_preserving
    && str_eq a.others b.others

-- `a & b` is not empty.
abbrev pub overlap : List String → List String → Bool
overlap a b = any (λ x. contains x b) a

abbrev pub subset : List String → List String → Bool
subset a b = all (λ x. contains x b) a

abbrev pub no_config : Config
no_config = record {
  sql = none;
  casts = [];
  include = [];
  exclude = [];
  expressions = [];
  order_preserving = false;
  others = "";
}

abbrev pub merged_id : Operation → Operation → String
merged_id left right = left.operation_id <> "__" <> right.operation_id

abbrev pub and_sql : String → String → String
and_sql a b = "(" <> a <> ") AND (" <> b <> ")"

-- The filter over both predicates, of which the texts are given.
abbrev pub merged_filter : Operation → Operation → String → String → Operation
merged_filter left right a b = record left {
  operation_id = merged_id left right;
  config = record no_config { sql = some (and_sql a b) };
  input_columns = union [] (left.input_columns ++ right.input_columns);
}

abbrev pub merged_calc : Operation → Operation → Operation
merged_calc left right = record left {
  operation_id = merged_id left right;
  config = record no_config { expressions = left.config.expressions ++ right.config.expressions };
  input_columns = union [] (left.input_columns ++ right.input_columns);
  output_columns = left.output_columns ++ right.output_columns;
}

-- What a rule makes of operations, where it applies; it raises `KeyError` on a missing key of a config.
pub data Rewrite : Type 0 where
  unchanged raises_key_error : Rewrite
  rewritten : List Operation → Rewrite

-- `left.config['sql']` and `right.config['sql']`
abbrev pub merged_filters : Operation → Operation → Option String → Option String → Rewrite
merged_filters left right none right_sql = raises_key_error
merged_filters left right (some a) none = raises_key_error
merged_filters left right (some a) (some b) = rewritten (merged_filter left right a b ∷ [])

-- The rules on two operations side by side.
unfoldable pub merge_filters : Operation → Operation → Rewrite
merge_filters left right =
    if is_filter left.kind
      && is_filter right.kind
      && left.properties.total
      && right.properties.total
    then merged_filters left right left.config.sql right.config.sql
    else unchanged

unfoldable pub merge_calcs : Operation → Operation → Rewrite
merge_calcs left right =
    if is_add_calc left.kind
      && is_add_calc right.kind
      && not (
          overlap left.output_columns right.input_columns
          || overlap right.output_columns left.input_columns)
    then rewritten (merged_calc left right ∷ [])
    else unchanged

unfoldable pub drop_cast : Operation → Operation → Rewrite
unfolding config_eq
drop_cast left right =
    if is_type_cast left.kind && is_type_cast right.kind && config_eq left.config right.config
    then rewritten (left ∷ [])
    else unchanged

unfoldable pub filter_over_projection : Operation → Operation → Rewrite
filter_over_projection left right =
    if is_projection left.kind
      && is_filter right.kind
      && (is_empty left.config.include || subset right.input_columns left.config.include)
      && not (overlap right.input_columns left.config.exclude)
    then rewritten (right ∷ left ∷ [])
    else unchanged

unfoldable pub filter_over_calc : Operation → Operation → Rewrite
filter_over_calc left right =
    if is_add_calc left.kind
      && is_filter right.kind
      && not (overlap left.output_columns right.input_columns)
    then rewritten (right ∷ left ∷ [])
    else unchanged

unfoldable pub filter_over_cast : Operation → Operation → Rewrite
filter_over_cast left right =
    if is_type_cast left.kind
      && is_filter right.kind
      && left.properties.total
      && left.config.order_preserving
      && not (overlap left.output_columns right.input_columns)
    then rewritten (right ∷ left ∷ [])
    else unchanged

-- What a rule makes of the rest of a plan, behind an operation.
abbrev pub behind : Operation → Rewrite → Rewrite
behind op unchanged = unchanged
behind op raises_key_error = raises_key_error
behind op (rewritten rest) = rewritten (op ∷ rest)

-- The loop of a rule over `ops[index : index + 2]`: the first two operations that it applies to.
unfoldable pub rewrite_pair : (Operation → Operation → Rewrite) → List Operation → Rewrite
rewrite_pair rule [] = unchanged
rewrite_pair rule (x ∷ []) = unchanged
rewrite_pair rule (x ∷ y ∷ ops) = elim (rule x y) [
  | rewritten replaced ↦ rewritten (replaced ++ ops)
  | raises_key_error ↦ raises_key_error
  | unchanged ↦ behind x (rewrite_pair rule (y ∷ ops))
]

abbrev pub is_identity : Operation → Bool
is_identity op = is_projection op.kind && is_empty op.config.include && is_empty op.config.exclude

unfoldable pub remove_identity : List Operation → Rewrite
remove_identity [] = unchanged
remove_identity (op ∷ ops) = elim (is_identity op) [
  | true ↦ rewritten ops
  | false ↦ behind op (remove_identity ops)
]
