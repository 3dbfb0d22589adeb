-- ===== src/Core/CostModel.antt =====
-- src/smoking_data/core/cost_model.py: cost estimates, and the packing of groups into tasks.
-- Row and byte counts are natural numbers, and a Python set of file names is a list of names that
-- `add_name` keeps free of repetitions.
pub mod Packing
pub mod Tasks
pub mod Summary
mod Examples
use smoking_data.Prelude.{
  ℕ, ◌+◌, ◌*◌, ◌/◌, max, min, String, Bool, true, false, ◌&&◌, ◌||◌, not, Option, none, some, List,
  [], ◌∷◌, ◌++◌, map, ltb, leb, ◌==◌, if◌then◌else◌, length, is_empty, all, sum_by,
}
use smoking_data.Prelude.Names.{union}

pub data Risk : Type 0 where
  bounded unknown : Risk

pub record GroupCost : Type 0 where
  pub key : List String
  pub rows : ℕ
  pub payload_bytes : Option ℕ
  pub state_bytes : Option ℕ
  pub source_files : List String

abbrev pub is_some : Option ℕ → Bool
is_some none = false
is_some (some n) = true

unfoldable pub risk : GroupCost → Risk
risk g = if is_some g.payload_bytes && is_some g.state_bytes then bounded else unknown

pub record TaskCost : Type 0 where
  pub input_rows : ℕ
  pub output_rows : Option ℕ
  pub payload_bytes : Option ℕ
  pub state_bytes : Option ℕ
  pub source_files : ℕ
  pub small_file_penalty : ℕ
  pub risk : Risk

unfoldable pub estimate_hash_state_bytes : ℕ → Option ℕ → Option ℕ → Option ℕ
estimate_hash_state_bytes rows none payload_width = none
estimate_hash_state_bytes rows (some key_width) none = none
estimate_hash_state_bytes rows (some key_width) (some payload_width) =
    some (max 0 rows * (24 + max 1 key_width + max 1 payload_width))

-- `min(rows, bounded_frame_rows) if bounded_frame_rows else rows`: 0 counts as no frame.
retained_rows : ℕ → Option ℕ → ℕ
retained_rows rows none = rows
retained_rows rows (some frame_rows) = if frame_rows == 0 then rows else min rows frame_rows

unfoldable pub estimate_window_state_bytes : ℕ → Option ℕ → Option ℕ → Option ℕ
unfolding retained_rows
estimate_window_state_bytes rows none frame_rows = none
estimate_window_state_bytes rows (some row_width) frame_rows =
    some (max 0 (retained_rows rows frame_rows) * (16 + max 1 row_width))

unfoldable pub estimate_join_state_bytes : Option ℕ → Option ℕ → Option ℕ → Option ℕ
estimate_join_state_bytes (some right_rows) (some right_row_width) (some distinct_keys) =
    some (max 0 right_rows * (16 + max 1 right_row_width) + max 0 distinct_keys * 24)
estimate_join_state_bytes _ _ _ = none

-- The keyword arguments of `pack_group_costs`.
pub record PackLimits : Type 0 where
  pub max_rows : ℕ
  pub max_bytes : ℕ
  pub max_source_files : ℕ
  pub max_groups : Option ℕ

-- The local variables of `pack_group_costs`.
pub record PackState : Type 0 where
  pub packed : List (List GroupCost)
  pub current : List GroupCost
  pub current_rows : ℕ
  pub current_bytes : ℕ
  pub current_files : List String

abbrev pub pack_start : PackState
pack_start = record {
  packed = [];
  current = [];
  current_rows = 0;
  current_bytes = 0;
  current_files = [];
}

abbrev pub group_bytes : PackLimits → GroupCost → ℕ
group_bytes l g = elim g.payload_bytes [ none ↦ l.max_bytes | some n ↦ n ]

group_limit_reached : Option ℕ → ℕ → Bool
group_limit_reached none n = false
group_limit_reached (some m) n = leb m n

pub exceeds : PackLimits → PackState → GroupCost → Bool
unfolding group_limit_reached
exceeds l s g =
    not (is_empty s.current)
    && (ltb l.max_rows (s.current_rows + g.rows)
        || ltb l.max_bytes (s.current_bytes + group_bytes l g)
        || ltb l.max_source_files (length (union s.current_files g.source_files))
        || group_limit_reached l.max_groups (length s.current))

abbrev pub close_task : PackState → PackState
close_task s = record {
  packed = s.packed ++ s.current ∷ [];
  current = [];
  current_rows = 0;
  current_bytes = 0;
  current_files = [];
}

abbrev pub append_group : PackLimits → PackState → GroupCost → PackState
append_group l s g = record {
  packed = s.packed;
  current = s.current ++ g ∷ [];
  current_rows = s.current_rows + g.rows;
  current_bytes = s.current_bytes + group_bytes l g;
  current_files = union s.current_files g.source_files;
}

-- The body of the `for` loop.
pub pack_step : PackLimits → PackState → GroupCost → PackState
unfolding exceeds
pack_step l s g = append_group l (if exceeds l s g then close_task s else s) g

pub pack_loop : PackLimits → PackState → List GroupCost → PackState
pack_loop l s [] = s
pack_loop l s (g ∷ gs) = pack_loop l (pack_step l s g) gs

pub pack_finish : PackState → List (List GroupCost)
pack_finish s = if is_empty s.current then s.packed else s.packed ++ s.current ∷ []

unfoldable pub pack_group_costs : PackLimits → List GroupCost → List (List GroupCost)
unfolding pack_step pack_loop pack_finish
pack_group_costs l groups = pack_finish (pack_loop l pack_start groups)

-- `sum(...) if all(value is not None ...) else None`
pub sum_known : List (Option ℕ) → Option ℕ
sum_known [] = some 0
sum_known (none ∷ values) = none
sum_known (some n ∷ values) = elim (sum_known values) [
  | none ↦ none
  | some total ↦ some (n + total)
]

pub all_files : List String → List GroupCost → List String
all_files files [] = files
all_files files (g ∷ gs) = all_files (union files g.source_files) gs

unfoldable pub summarize_task_cost : List GroupCost → ℕ → TaskCost
unfolding sum_known all_files
summarize_task_cost items target_rows =
    let rows = sum_by (λ (g : GroupCost). g.rows) items in
    let payloads = map (λ (g : GroupCost). g.payload_bytes) items in
    let states = map (λ (g : GroupCost). g.state_bytes) items in
    record {
      input_rows = rows;
      output_rows = none;
      payload_bytes = sum_known payloads;
      state_bytes = sum_known states;
      source_files = length (all_files [] items);
      small_file_penalty = if ltb 0 rows && ltb rows (max 1 (target_rows / 4)) then 1 else 0;
      risk = if all is_some (payloads ++ states) then bounded else unknown;
    }
