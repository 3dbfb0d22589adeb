-- ===== src/Core/ExecutionPlan/Laws.antt =====
-- What holds of every kind of operation.
use smoking_data.Prelude.{◌≡◌, ◌↔◌, true, false, arith, is_empty}
use smoking_data.Prelude.Names.{contains}
use smoking_data.Core.Operations.{OperationKind, preserve, operation_properties}
use smoking_data.Core.ExecutionPlan.{operation_barriers}

-- An operation whose effect may be moved to the source is deterministic and total, does not depend on
-- the order of rows or on complete groups, has no side effect, reads with the source's projection, and
-- is no barrier.
pub pushdown_safe-IsPlain :
    (kind : OperationKind)
    → (operation_properties kind).pushdown_safe ≡ true
    → ((operation_properties kind).deterministic ≡ true)
      × ((operation_properties kind).total ≡ true)
      × ((operation_properties kind).order_sensitive ≡ false)
      × (contains "source_projection" (operation_properties kind).pushdown_capabilities ≡ true)
      × (is_empty (operation_barriers kind (operation_properties kind)) ≡ true)
unfolding operation_properties operation_barriers
pushdown_safe-IsPlain kind h = ground arith

-- An operation keeps the rows exactly when the table says that it keeps their number.
pub row_preserving_iff :
    (kind : OperationKind)
    → ((operation_properties kind).row_preserving ≡ true)
      ↔ ((operation_properties kind).cardinality_effect ≡ preserve)
unfolding operation_properties
row_preserving_iff kind = ground arith
