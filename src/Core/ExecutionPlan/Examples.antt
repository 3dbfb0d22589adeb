-- ===== src/Core/ExecutionPlan/Examples.antt =====
-- The table of operations at concrete kinds.
use smoking_data.Prelude.{◌≡◌, ◌↔◌, refl, true, false, [], ◌∷◌, is_empty}
use smoking_data.Prelude.Names.{contains}
use smoking_data.Core.Operations.{projection, pivot, preserve, operation_properties}
use smoking_data.Core.ExecutionPlan.{operation_barriers}
use smoking_data.Core.ExecutionPlan.Laws.{pushdown_safe-IsPlain, row_preserving_iff}

projection-pushes : (operation_properties projection).pushdown_safe ≡ true
unfolding operation_properties
projection-pushes = refl

pivot-barriers :
    operation_barriers pivot (operation_properties pivot)
    ≡ "complete_group" ∷ "cardinality_change" ∷ []
unfolding operation_barriers operation_properties
pivot-barriers = refl

pushdown_safe-IsPlain_example :
    ((operation_properties projection).deterministic ≡ true)
    × ((operation_properties projection).total ≡ true)
    × ((operation_properties projection).order_sensitive ≡ false)
    × (contains "source_projection" (operation_properties projection).pushdown_capabilities ≡ true)
    × (is_empty (operation_barriers projection (operation_properties projection)) ≡ true)
pushdown_safe-IsPlain_example = pushdown_safe-IsPlain projection projection-pushes

row_preserving_iff_example :
    ((operation_properties pivot).row_preserving ≡ true)
    ↔ ((operation_properties pivot).cardinality_effect ≡ preserve)
row_preserving_iff_example = row_preserving_iff pivot
