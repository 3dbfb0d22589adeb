-- ===== src/Runtime/ProbeRanges.antt =====
-- `_merge_ranges` of src/smoking_data/runtime/parquet_probe/ranges.py: byte ranges of files joined where the
-- gap between them is small. The order of Python's tuples is the parameter `before`.
pub mod Laws
mod Examples
use smoking_data.Prelude.{
  ℕ, ◌+◌, ◌-◌, max, String, Bool, true, false, not, ◌&&◌, ◌||◌, List, [], ◌∷◌, leb, if◌then◌else◌,
  str_eq,
}
use smoking_data.Prelude.Sort.{sort}

pub record ByteRange : Type 0 where
  pub source_file : String
  pub offset : ℕ
  pub length : ℕ

abbrev pub end_of : ByteRange → ℕ
end_of r = r.offset + r.length

-- `offset - previous_end <= merge_gap_bytes`, with the difference as an integer.
abbrev pub joins : ℕ → ℕ → ByteRange → ByteRange → Bool
joins merge_gap_bytes max_range_bytes previous r =
    leb r.offset (end_of previous + merge_gap_bytes)
    && leb (max (end_of previous) (end_of r) - previous.offset) max_range_bytes

abbrev pub joined : ByteRange → ByteRange → ByteRange
joined previous r = record previous { length = max (end_of previous) (end_of r) - previous.offset }

module _ (merge_gap_bytes max_range_bytes : ℕ) where
  -- The loop behind its first range: `previous` is `merged[-1]`.
  unfoldable pub merge_onto : ByteRange → List ByteRange → List ByteRange
  merge_onto previous [] = previous ∷ []
  merge_onto previous (r ∷ rest) =
      elim (str_eq previous.source_file r.source_file
        && joins merge_gap_bytes max_range_bytes previous r) [
          | true ↦ merge_onto (joined previous r) rest
          | false ↦ previous ∷ merge_onto r rest
        ]

  abbrev pub merge_sorted : List ByteRange → List ByteRange
  merge_sorted [] = []
  merge_sorted (r ∷ rest) = merge_onto r rest

  unfoldable pub merge_ranges : (ByteRange → ByteRange → Bool) → List ByteRange → List ByteRange
  unfolding merge_onto
  merge_ranges before ranges = merge_sorted (sort before ranges)
