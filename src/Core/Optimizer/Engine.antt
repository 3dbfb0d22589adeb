-- ===== src/Core/Optimizer/Engine.antt =====
-- What the operations of a logical plan do to a table. The engine that runs them is the record `Engine`:
-- SQL predicates, expressions, projections and casts on one row, and all other operations on the table.
use smoking_data.Prelude.{
  ◌≡◌, String, Bool, true, false, ◌&&◌, ◌||◌, Option, none, some, List, [], ◌∷◌, if◌then◌else◌,
  is_empty, str_eq,
}
use smoking_data.Prelude.Names.{contains}
use smoking_data.Core.Operations.{OperationKind, filter, projection, add_calc, type_cast}
use smoking_data.Core.Optimizer.{Expression, Cast, Config, Operation, and_sql}

abbrev pub Row : Type 0 → Type 0
Row Value = String → Option Value

pub record Engine : Type 1 where
  pub Value : Type 0
  -- whether a row meets a predicate; `none` is an error
  pub test : String → Row Value → Option Bool
  -- whether a row meets the expression of a filter without SQL
  pub test_expression : String → Row Value → Option Bool
  -- the value of an expression; `none` is an error
  pub eval : String → Row Value → Option Value
  pub project : List String → List String → Row Value → Row Value
  -- the value or null that a cast makes of a value or null; `none` is an error
  pub cast_value : String → Option Value → Option (Option Value)
  -- the operations that do not work row by row: windows, and all that are no filter, projection, calculation
  -- or cast
  pub run : Operation → List (Row Value) → Option (List (Row Value))
  -- a conjunction holds where both sides hold
  pub test-and_sql :
      (a b : String) (row : Row Value) (x y : Bool)
      → test a row ≡ some x
      → test b row ≡ some y
      → test (and_sql a b) row ≡ some (x && y)
  -- a projection keeps the columns that it includes and does not exclude
  pub project-keeps :
      (include exclude : List String) (row : Row Value) (c : String)
      → (is_empty include || contains c include) ≡ true
      → contains c exclude ≡ false
      → project include exclude row c ≡ row c
  pub project-nil : (row : Row Value) → project [] [] row ≡ row
  -- a value that was cast stays as it is under the same cast
  pub cast_value-twice :
      (spec : String) (v w : Option Value) → cast_value spec v ≡ some w → cast_value spec w ≡ some w

-- `logical_plan.py` declares a calculation with a window expression so.
abbrev pub is_window : Operation → Bool
is_window op = op.properties.order_sensitive || op.properties.requires_complete_group

-- What becomes of a row.
pub data RowOutcome (Value : Type 0) : Type 0 where
  fails drops : RowOutcome Value
  keeps : Row Value → RowOutcome Value

module _ {Value : Type 0} where
  abbrev pub put : RowOutcome Value → Option (List (Row Value)) → Option (List (Row Value))
  put fails rows = none
  put drops rows = rows
  put (keeps row) none = none
  put (keeps row) (some rows) = some (row ∷ rows)

  -- An operation on each row; an error in one row is an error of the whole.
  unfoldable pub each :
      (Row Value → RowOutcome Value) → List (Row Value) → Option (List (Row Value))
  each f [] = some []
  each f (row ∷ rows) = put (f row) (each f rows)

  abbrev pub kept_by : Option Bool → Row Value → RowOutcome Value
  kept_by none row = fails
  kept_by (some true) row = keeps row
  kept_by (some false) row = drops

  abbrev pub or_fails : Option (Row Value) → RowOutcome Value
  or_fails none = fails
  or_fails (some row) = keeps row

  abbrev pub set : String → Value → Row Value → Row Value
  set x v row c = if str_eq x c then some v else row c

  abbrev pub set_cell : String → Option Value → Row Value → Row Value
  set_cell x v row c = if str_eq x c then v else row c

module _ (engine : Engine) where
  open engine use {Value, test, test_expression, eval, project, cast_value, run}

  -- All expressions read the same row; the columns are set in the expressions' order.
  unfoldable pub calculate : List Expression → Row Value → Row Value → Option (Row Value)
  calculate [] source row = some row
  calculate (e ∷ es) source row = elim (eval e.text source) [
    | none ↦ none
    | some v ↦ calculate es source (set e.alias v row)
  ]

  -- All casts read the same row.
  unfoldable pub cast_columns : List Cast → Row Value → Row Value → Option (Row Value)
  cast_columns [] source row = some row
  cast_columns (c ∷ cs) source row = elim (cast_value c.spec (source c.name)) [
    | none ↦ none
    | some v ↦ cast_columns cs source (set_cell c.name v row)
  ]

  abbrev pub cast : Config → Row Value → Option (Row Value)
  cast config row = cast_columns config.casts row row

  -- A filter has an SQL predicate or another expression; an empty `sql` beside one is left out.
  abbrev pub predicate : Option String → String → Row Value → Option Bool
  predicate (some sql) others row = test sql row
  predicate none others row = test_expression others row

  abbrev pub filter_row : Operation → Row Value → RowOutcome Value
  filter_row op row = kept_by (predicate op.config.sql op.config.others row) row

  abbrev pub project_row : Operation → Row Value → RowOutcome Value
  project_row op row = keeps (project op.config.include op.config.exclude row)

  abbrev pub calc_row : Operation → Row Value → RowOutcome Value
  calc_row op row = or_fails (calculate op.config.expressions row row)

  abbrev pub cast_row : Operation → Row Value → RowOutcome Value
  cast_row op row = or_fails (cast op.config row)

  -- A window expression makes a calculation one of the table, and not of its rows.
  abbrev pub apply_calc : Bool → Operation → List (Row Value) → Option (List (Row Value))
  apply_calc true op rows = run op rows
  apply_calc false op rows = each (calc_row op) rows

  abbrev pub apply_kind : OperationKind → Operation → List (Row Value) → Option (List (Row Value))
  apply_kind filter op rows = each (filter_row op) rows
  apply_kind projection op rows = each (project_row op) rows
  apply_kind add_calc op rows = apply_calc (is_window op) op rows
  apply_kind type_cast op rows = each (cast_row op) rows
  apply_kind _ op rows = run op rows

  abbrev pub and_then :
      Option (List (Row Value))
      → (List (Row Value) → Option (List (Row Value)))
      → Option (List (Row Value))
  and_then none f = none
  and_then (some rows) f = f rows

  -- What a plan makes of a table.
  unfoldable pub meaning : List Operation → List (Row Value) → Option (List (Row Value))
  unfolding each calculate cast_columns
  meaning [] rows = some rows
  meaning (op ∷ ops) rows = and_then (apply_kind op.kind op rows) (meaning ops)
