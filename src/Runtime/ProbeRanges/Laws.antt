-- ===== src/Runtime/ProbeRanges/Laws.antt =====
-- What the ranges that `_merge_ranges` of src/smoking_data/runtime/parquet_probe/ranges.py returns hold.
use smoking_data.Prelude.{
  ℕ, ◌≤◌, ◌≡◌, sym, ap, subst, Bool, true, false, ◌&&◌, ◌||◌, List, [], ◌∷◌, leb, str_eq, eq_iff,
  arith, All, All-map, any, Bool-cases, inl, inr, ==_iff, ◌==◌,
}
use smoking_data.Prelude.Sort.{sort}
use smoking_data.Prelude.Sort.Laws.{IsOrder, IsSorted, sort-IsSorted, sort-All, All-sort}
use smoking_data.Runtime.ProbeRanges.{
  ByteRange, end_of, joins, joined, merge_onto, merge_sorted, merge_ranges,
}

-- The bytes of `r` are among those of `m`.
abbrev pub covers : ByteRange → ByteRange → Bool
covers r m =
    str_eq m.source_file r.source_file && leb m.offset r.offset && leb (end_of r) (end_of m)

abbrev pub IsCovered : List ByteRange → ByteRange → Type 0
IsCovered merged r = any (covers r) merged ≡ true

-- A range within the bound, or one that was given.
abbrev pub same_range : ByteRange → ByteRange → Bool
same_range a b = str_eq a.source_file b.source_file && a.offset == b.offset && a.length == b.length

abbrev pub IsBounded : ℕ → List ByteRange → ByteRange → Type 0
IsBounded max_range_bytes ranges m =
    (leb m.length max_range_bytes || any (same_range m) ranges) ≡ true

module _ (merge_gap_bytes max_range_bytes : ℕ) where
  covers-joined :
      (r previous next : ByteRange)
      → covers r previous ≡ true
      → covers r (joined previous next) ≡ true
  covers-joined r previous next h = ground arith

  abbrev together : ByteRange → ByteRange → Bool
  together previous r =
      str_eq previous.source_file r.source_file && joins merge_gap_bytes max_range_bytes previous r

  abbrev merged : ByteRange → List ByteRange → List ByteRange
  merged previous rest = merge_onto merge_gap_bytes max_range_bytes previous rest

  merge_onto_joined :
      (previous r : ByteRange) (rest : List ByteRange)
      → together previous r ≡ true
      → merged (joined previous r) rest ≡ merged previous (r ∷ rest)
  unfolding merge_onto
  merge_onto_joined previous r rest h =
      ap (λ b. elim b [ true ↦ merged (joined previous r) rest | false ↦ previous ∷ merged r rest ])
        (sym h)

  merge_onto_apart :
      (previous r : ByteRange) (rest : List ByteRange)
      → together previous r ≡ false
      → previous ∷ merged r rest ≡ merged previous (r ∷ rest)
  unfolding merge_onto
  merge_onto_apart previous r rest h =
      ap (λ b. elim b [ true ↦ merged (joined previous r) rest | false ↦ previous ∷ merged r rest ])
        (sym h)

  -- What the open range covers stays covered.
  merge_onto-keeps :
      (previous r : ByteRange) (rest : List ByteRange)
      → covers r previous ≡ true
      → IsCovered (merge_onto merge_gap_bytes max_range_bytes previous rest) r
  unfolding merge_onto
  merge_onto-keeps previous r [] h = ground arith
  merge_onto-keeps previous r (x ∷ rest) h = elim (Bool-cases (together previous x)) [
    | inl one ↦
        subst (λ ms. IsCovered ms r) (merge_onto_joined previous x rest one)
          (merge_onto-keeps (joined previous x) r rest (covers-joined r previous x h))
    | inr two ↦
        subst (λ ms. IsCovered ms r) (merge_onto_apart previous x rest two) (ground (arith, h))
  ]

  -- Ranges of one file stand in the order of their offsets.
  Follows : ByteRange → ByteRange → Type 0
  Follows a b = str_eq a.source_file b.source_file ≡ true → a.offset ≤ b.offset

  module _ (before : ByteRange → ByteRange → Bool) (order : IsOrder before)
      (by_offset : (a b : ByteRange)
        → before a b ≡ true
        → str_eq a.source_file b.source_file ≡ true
        → a.offset ≤ b.offset) where
    merge_onto-IsCovered :
        (previous : ByteRange) (rest : List ByteRange)
        → All (Follows previous) rest
        → IsSorted before order rest
        → All (IsCovered (merge_onto merge_gap_bytes max_range_bytes previous rest)) rest
    unfolding merge_onto Follows
    merge_onto-IsCovered previous [] f s = tt
    merge_onto-IsCovered previous (r ∷ rest) f s = elim (Bool-cases (together previous r)) [
      | inl one ↦
          subst (λ ms. All (IsCovered ms) (r ∷ rest)) (merge_onto_joined previous r rest one)
            (
              merge_onto-keeps (joined previous r) r rest (ground (arith, f.0)),
              merge_onto-IsCovered (joined previous r) rest f.1 s.1,
            )
      | inr two ↦
          subst (λ ms. All (IsCovered ms) (r ∷ rest)) (merge_onto_apart previous r rest two)
            (
              ground (
                arith,
                merge_onto-keeps r r rest (ground (arith, eq_iff r.source_file r.source_file)),
              ),
              All-map (IsCovered (previous ∷ merge_onto merge_gap_bytes max_range_bytes r rest))
                  rest (λ x h. ground (arith, h))
                  (merge_onto-IsCovered r rest
                    (All-map (Follows r) rest (λ x h. by_offset r x h) s.0) s.1),
            )
    ]

    sorted-IsCovered :
        (ranges : List ByteRange)
        → IsSorted before order ranges
        → All (IsCovered (merge_sorted merge_gap_bytes max_range_bytes ranges)) ranges
    unfolding Follows
    sorted-IsCovered [] s = tt
    sorted-IsCovered (r ∷ rest) s = (
      merge_onto-keeps r r rest (ground (arith, eq_iff r.source_file r.source_file)),
      merge_onto-IsCovered r rest (All-map (Follows r) rest (λ x h. by_offset r x h) s.0) s.1,
    )

    -- Where `before` is an order that puts the ranges of one file in the order of their offsets, as the order of
    -- Python's tuples does, all bytes of each given range are in one merged range of its file.
    pub merge_ranges-IsCovered :
        (ranges : List ByteRange)
        → All (IsCovered (merge_ranges merge_gap_bytes max_range_bytes before ranges)) ranges
    unfolding merge_ranges
    merge_ranges-IsCovered ranges =
        sort-All before
          (IsCovered (merge_sorted merge_gap_bytes max_range_bytes (sort before ranges))) ranges
          (sorted-IsCovered (sort before ranges) (sort-IsSorted before order ranges))

  merge_onto-IsBounded :
      (ranges : List ByteRange) (previous : ByteRange) (rest : List ByteRange)
      → IsBounded max_range_bytes ranges previous
      → All (IsBounded max_range_bytes ranges) rest
      → All
          (IsBounded max_range_bytes ranges)
          (merge_onto merge_gap_bytes max_range_bytes previous rest)
  unfolding merge_onto
  merge_onto-IsBounded ranges previous [] h k = (h, tt)
  merge_onto-IsBounded ranges previous (r ∷ rest) h k = elim (Bool-cases (together previous r)) [
    | inl one ↦
        subst (All (IsBounded max_range_bytes ranges)) (merge_onto_joined previous r rest one)
          (merge_onto-IsBounded ranges (joined previous r) rest (ground arith) k.1)
    | inr two ↦
        subst (All (IsBounded max_range_bytes ranges)) (merge_onto_apart previous r rest two)
          (h, merge_onto-IsBounded ranges r rest k.0 k.1)
  ]

  sorted-IsBounded :
      (ranges given : List ByteRange)
      → All (IsBounded max_range_bytes given) ranges
      → All (IsBounded max_range_bytes given) (merge_sorted merge_gap_bytes max_range_bytes ranges)
  sorted-IsBounded [] given h = tt
  sorted-IsBounded (r ∷ rest) given h = merge_onto-IsBounded given r rest h.0 h.1

  given-IsBounded :
      (ranges given : List ByteRange)
      → ((r : ByteRange) → any (same_range r) ranges ≡ true → any (same_range r) given ≡ true)
      → All (IsBounded max_range_bytes given) ranges
  given-IsBounded [] given h = tt
  given-IsBounded (r ∷ rest) given h = (
    ground (
      arith,
      h r,
      eq_iff r.source_file r.source_file,
      ==_iff r.offset r.offset,
      ==_iff r.length r.length,
    ),
    given-IsBounded rest given λ x k. h x (ground arith),
  )

  -- Each merged range is within `max_range_bytes` or is one of the given ranges.
  pub merge_ranges-IsBounded :
      (before : ByteRange → ByteRange → Bool) (ranges : List ByteRange)
      → All
          (IsBounded max_range_bytes ranges)
          (merge_ranges merge_gap_bytes max_range_bytes before ranges)
  unfolding merge_ranges
  merge_ranges-IsBounded before ranges = sorted-IsBounded (sort before ranges) ranges (
      All-sort before (IsBounded max_range_bytes ranges) ranges
        (given-IsBounded ranges ranges λ r h. h))
