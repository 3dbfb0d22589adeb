-- ===== src/Core/Operations.antt =====
-- src/smoking_data/core/operations.py: the kinds of operations and the table of their properties.
use smoking_data.Prelude.{String, Bool, true, false, List, [], ◌∷◌}

pub data OperationKind : Type 0 where
  filter type_cast add_calc reference_replace list_restore expand_list_rows : OperationKind
  compact_list_rows build_sidecar active_row_selection materialize sort_first : OperationKind
  projection include_columns exclude_columns rename_columns data_assertion unpivot : OperationKind
  unnest pivot join write_dataset partition_write : OperationKind

pub data CardinalityEffect : Type 0 where
  preserve reduce expand_or_reduce many_to_many : CardinalityEffect

pub data NullSemantics : Type 0 where
  propagate three_valued_filter group_key op_defined : NullSemantics

pub record OperationProperties : Type 0 where
  pub row_preserving : Bool
  pub cardinality_effect : CardinalityEffect
  pub deterministic : Bool
  pub order_sensitive : Bool
  pub schema_changing : Bool
  pub requires_complete_group : Bool
  pub side_effect : Bool
  pub pushdown_safe : Bool
  pub total : Bool
  pub null_semantics : NullSemantics
  pub error_semantics : String
  pub backend_support : List String
  pub pushdown_capabilities : List String

-- The constructor with the class's defaults.
abbrev pub with_defaults : Bool → CardinalityEffect → Bool → Bool → OperationProperties
with_defaults row_preserving cardinality_effect deterministic order_sensitive = record {
  row_preserving = row_preserving;
  cardinality_effect = cardinality_effect;
  deterministic = deterministic;
  order_sensitive = order_sensitive;
  schema_changing = false;
  requires_complete_group = false;
  side_effect = false;
  pushdown_safe = false;
  total = true;
  null_semantics = propagate;
  error_semantics = "raise";
  backend_support = "rust" ∷ [];
  pushdown_capabilities = [];
}

-- `OPERATION_PROPERTIES[kind]`
unfoldable pub operation_properties : OperationKind → OperationProperties
operation_properties filter = record (with_defaults false reduce true false) {
  pushdown_safe = true;
  null_semantics = three_valued_filter;
  pushdown_capabilities = "source_projection" ∷ "predicate" ∷ [];
}
operation_properties type_cast = record (with_defaults true preserve true false) {
  schema_changing = true;
  total = false;
  pushdown_capabilities = "selector_expression" ∷ [];
}
operation_properties add_calc = record (with_defaults true preserve true false) {
  schema_changing = true;
  pushdown_capabilities = "selector_expression" ∷ [];
}
operation_properties reference_replace = record (with_defaults true preserve true false) {
  schema_changing = true;
  null_semantics = op_defined;
}
operation_properties list_restore = record (with_defaults true preserve true true) {
  schema_changing = true;
  requires_complete_group = true;
}
operation_properties expand_list_rows = record (with_defaults false expand_or_reduce true true) {
  schema_changing = true;
  null_semantics = op_defined;
}
operation_properties compact_list_rows = record (with_defaults false expand_or_reduce true true) {
  schema_changing = true;
  requires_complete_group = true;
  null_semantics = op_defined;
}
operation_properties build_sidecar = record (with_defaults true preserve true false) {
  side_effect = true;
  pushdown_capabilities = "source_projection" ∷ "coordinate_index" ∷ [];
}
operation_properties sort_first = record (with_defaults false reduce true true) {
  requires_complete_group = true;
  null_semantics = group_key;
}
operation_properties active_row_selection = record (with_defaults false reduce true true) {
  requires_complete_group = true;
  null_semantics = group_key;
  pushdown_capabilities = "selector_expression" ∷ "coordinate_snapshot" ∷ [];
}
operation_properties materialize = record (with_defaults true preserve true true) {
  requires_complete_group = true;
  side_effect = true;
  pushdown_capabilities = "coordinate_snapshot" ∷ "selective_payload_read" ∷ [];
}
operation_properties projection = record (with_defaults true preserve true false) {
  schema_changing = true;
  pushdown_safe = true;
  pushdown_capabilities = "source_projection" ∷ [];
}
operation_properties include_columns = record (with_defaults true preserve true false) {
  schema_changing = true;
  pushdown_safe = true;
  pushdown_capabilities = "source_projection" ∷ [];
}
operation_properties exclude_columns = record (with_defaults true preserve true false) {
  schema_changing = true;
  pushdown_safe = true;
  pushdown_capabilities = "source_projection" ∷ [];
}
operation_properties rename_columns = record (with_defaults true preserve true false) {
  schema_changing = true;
}
operation_properties data_assertion = record (with_defaults true preserve true false) {
  requires_complete_group = true;
  null_semantics = op_defined;
}
operation_properties unpivot = record (with_defaults false expand_or_reduce true true) {
  schema_changing = true;
  requires_complete_group = false;
  null_semantics = op_defined;
}
operation_properties unnest = record (with_defaults false expand_or_reduce true true) {
  schema_changing = true;
  null_semantics = op_defined;
}
operation_properties pivot = record (with_defaults false expand_or_reduce true true) {
  schema_changing = true;
  requires_complete_group = true;
  null_semantics = op_defined;
}
operation_properties join = record (with_defaults false many_to_many true false) {
  schema_changing = true;
  requires_complete_group = true;
  null_semantics = op_defined;
}
operation_properties partition_write = record (with_defaults true preserve true false) {
  side_effect = true;
}
operation_properties write_dataset = record (with_defaults true preserve true false) {
  side_effect = true;
}
