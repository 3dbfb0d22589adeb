-- ===== src/Core/Optimizer/Examples.antt =====
-- A plan of a projection, two filters, two calculations and two casts on a small engine.
mod Marks
use smoking_data.Prelude.{
  ℕ, ◌≡◌, refl, String, ◌<>◌, Bool, true, false, not, ◌&&◌, ◌||◌, Option, none, some, List, [], ◌∷◌,
  is_empty, str_eq, arith, All, if◌then◌else◌,
}
use smoking_data.Prelude.Names.{contains}
use smoking_data.Prelude.Result.{Result, ok, err}
use smoking_data.Core.Operations.{
  OperationKind, OperationProperties, operation_properties, filter, type_cast, add_calc, projection,
  partition_write,
}
use smoking_data.Core.Optimizer.{
  and_sql, Config, Expression, Operation, no_config, is_fixed_barrier, config_eq,
}
use smoking_data.Core.Optimizer.Loop.{
  RewriteError, OptimizationResult, optimize_logical_plan, as_result, start, ids,
}
use smoking_data.Core.Optimizer.Engine.{Row, Engine, meaning, calculate, each, cast_columns}
use smoking_data.Core.Optimizer.Sound.{Sound}
use smoking_data.Core.Optimizer.Kept.{Kept, optimize_logical_plan-Kept}
use smoking_data.Core.Optimizer.Regular.{Regular, RegularAs}
use smoking_data.Core.Optimizer.Accepted.{optimize_logical_plan_returns}
use smoking_data.Core.Optimizer.Examples.Marks.{marked, marked-append}

abbrev present : Option ℕ → Bool
present none = false
present (some n) = true

abbrev sample_test : String → Row ℕ → Option Bool
sample_test sql row = some (not (marked sql) || present (row "x"))

abbrev sample_project : List String → List String → Row ℕ → Row ℕ
sample_project include exclude row c =
    if (is_empty include || contains c include) && not (contains c exclude) then row c else none

abbrev sample_cast : String → Option ℕ → Option (Option ℕ)
sample_cast spec v = if str_eq spec "bad" then none else some v

marked-and_sql : (a b : String) → marked (and_sql a b) ≡ (marked a || marked b)
marked-and_sql a b = ground (
  arith,
  marked-append "(" (a <> ") AND (" <> b <> ")"),
  marked-append a (") AND (" <> b <> ")"),
  marked-append ") AND (" (b <> ")"),
  marked-append b ")",
)

sample_conjunction :
    (a b : String) (row : Row ℕ) (x y : Bool)
    → sample_test a row ≡ some x
    → sample_test b row ≡ some y
    → sample_test (and_sql a b) row ≡ some (x && y)
sample_conjunction a b row x y h k = ground (arith, marked-and_sql a b)

sample_cast_twice :
    (spec : String) (v w : Option ℕ) → sample_cast spec v ≡ some w → sample_cast spec w ≡ some w
sample_cast_twice spec v w h = ground arith

abbrev sample : Engine
sample = record {
  Value = ℕ;
  test = sample_test;
  test_expression = λ expression row. none;
  eval = λ text row. some 7;
  project = sample_project;
  cast_value = sample_cast;
  run = λ op rows. some rows;
  test-and_sql = sample_conjunction;
  project-keeps = λ include exclude row c h k. ground arith;
  project-nil = λ row. refl;
  cast_value-twice = sample_cast_twice;
}

abbrev regular : OperationKind → OperationProperties
regular kind = record (operation_properties kind) { total = true }

abbrev filtering : String → String → Operation
filtering operation_id sql = record {
  operation_id = operation_id;
  kind = filter;
  config = record no_config { sql = some sql };
  input_columns = "x" ∷ [];
  output_columns = [];
  properties = regular filter;
}

abbrev casting : String → Operation
casting operation_id = record {
  operation_id = operation_id;
  kind = type_cast;
  config = record no_config {
    order_preserving = true;
    casts = (record { name = "y"; spec = "int" }) ∷ [];
  };
  input_columns = "y" ∷ [];
  output_columns = "y" ∷ [];
  properties = regular type_cast;
}

abbrev calculating : Operation
calculating = record {
  operation_id = "calc";
  kind = add_calc;
  config = record no_config { expressions = (record { alias = "z"; text = "7" }) ∷ [] };
  input_columns = "y" ∷ [];
  output_columns = "z" ∷ [];
  properties = regular add_calc;
}

abbrev projecting : Operation
projecting = record {
  operation_id = "projection";
  kind = projection;
  config = record no_config { exclude = "y" ∷ [] };
  input_columns = [];
  output_columns = [];
  properties = regular projection;
}

abbrev writing : Operation
writing = record {
  operation_id = "write";
  kind = partition_write;
  config = no_config;
  input_columns = [];
  output_columns = [];
  properties = operation_properties partition_write;
}

abbrev plan : List Operation
plan =
    casting "cast"
    ∷ casting "again"
    ∷ calculating
    ∷ filtering "some" "x > 0"
    ∷ projecting
    ∷ filtering "few" "x < 9"
    ∷ writing
    ∷ []

abbrev result_of : Result RewriteError OptimizationResult → OptimizationResult
result_of (ok r) = r
result_of (err e) = as_result (λ op. op.operation_id) 32 [] (start (λ op. op.operation_id) 32 [])

abbrev optimized : ℕ → Result RewriteError OptimizationResult
optimized n = optimize_logical_plan (λ op. op.operation_id) 32 true n plan

program : Unit {0}
unfolding operation_properties optimize_logical_plan meaning calculate each cast_columns
    is_fixed_barrier config_eq
program = tt

optimized-ids :
    ids ((result_of (optimized 8)).optimized_plan)
    ≡ "some__few" ∷ "cast" ∷ "calc" ∷ "projection" ∷ "write" ∷ []
unfolding program
optimized-ids = refl

-- Two filters with an expression and no SQL raise.
filters-raise :
    optimize_logical_plan
      (λ op. op.operation_id)
      32
      true
      8
      (record (filtering "a" "") { config = record no_config { others = "[x] > 0" } }
        ∷ record (filtering "b" "") { config = record no_config { others = "[x] < 9" } }
        ∷ [])
    ≡ err RewriteError.key_error
unfolding program
filters-raise = refl

-- One round, which drops the second cast.
abbrev once : OptimizationResult
once = result_of (optimized 1)

once-ok : optimized 1 ≡ ok once
unfolding program
once-ok = refl

abbrev table : List (Row ℕ)
table = (λ c. some 3) ∷ (λ c. none) ∷ []

optimize_logical_plan-Kept_example : Kept (λ op. op.operation_id) 32 plan once
optimize_logical_plan-Kept_example =
    optimize_logical_plan-Kept (λ op. op.operation_id) 32 plan true 1 once once-ok

plan-Regular : All (Regular (λ config. "y" ∷ [])) plan
unfolding Regular RegularAs program
plan-Regular = (
  (refl, refl),
  (
    (refl, refl),
    (
      refl,
      ((refl, refl, "x > 0", refl), ((refl, λ h. refl), ((refl, refl, "x < 9", refl), (tt, tt)))),
    ),
  ),
)

optimize_logical_plan_returns_example : (r : OptimizationResult) × (optimized 8 ≡ ok r)
optimize_logical_plan_returns_example =
    optimize_logical_plan_returns (λ config. "y" ∷ []) (λ op. op.operation_id) 32 true 8 plan
      plan-Regular
