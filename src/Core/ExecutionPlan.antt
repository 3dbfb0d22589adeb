-- ===== src/Core/ExecutionPlan.antt =====
-- `_operation_barriers` and `_physical_role` of src/smoking_data/core/execution_plan.py.
mod Examples
pub mod Laws
use smoking_data.Prelude.{String, Bool, List, [], ◌∷◌, ◌++◌, if◌then◌else◌}
use smoking_data.Core.Operations.{
  OperationKind, filter, build_sidecar, active_row_selection, materialize, data_assertion, unpivot,
  pivot, join, write_dataset, OperationProperties,
}

-- `"..." if kind in {...}`, kind by kind.
abbrev pub kind_barriers : OperationKind → List String
kind_barriers data_assertion = "global_dataset_scan" ∷ "commit_precondition" ∷ []
kind_barriers pivot = "cardinality_change" ∷ []
kind_barriers join = "cardinality_change" ∷ []
kind_barriers unpivot = "cardinality_change" ∷ []
kind_barriers active_row_selection = "coordinate_snapshot" ∷ "cardinality_change" ∷ []
kind_barriers build_sidecar = "thin_index" ∷ "source_span_boundary" ∷ []
kind_barriers materialize = "payload_read" ∷ "process_lifetime" ∷ "dataset_staging" ∷ []
kind_barriers _ = []

-- The kind and the properties of an operation are what the source reads of it.
unfoldable pub operation_barriers : OperationKind → OperationProperties → List String
operation_barriers kind properties =
    (if properties.requires_complete_group then "complete_group" ∷ [] else [])
    ++ (if properties.side_effect then "side_effect" ∷ [] else [])
    ++ kind_barriers kind

unfoldable pub physical_role : OperationKind → String
physical_role build_sidecar = "planner_sidecar_barrier"
physical_role active_row_selection = "planner_selector_barrier"
physical_role materialize = "payload_materialize_barrier"
physical_role filter = "selector_prefix"
physical_role data_assertion = "validation_barrier"
physical_role write_dataset = "write_suffix"
physical_role _ = "payload_body"
