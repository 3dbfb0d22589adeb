-- ===== src/Runtime/ProbeRanges/Examples.antt =====
-- Ranges of two files in the order of their offsets.
use smoking_data.Prelude.{ℕ, ◌≤◌, ◌≡◌, refl, String, Bool, true, List, [], ◌∷◌, All, str_eq, arith}
use smoking_data.Prelude.Lex.{lex_leb, lex_leb-IsOrder}
use smoking_data.Runtime.ProbeRanges.{ByteRange, merge_ranges}
use smoking_data.Runtime.ProbeRanges.Laws.{
  IsCovered, IsBounded, merge_ranges-IsCovered, merge_ranges-IsBounded,
}

abbrev at : String → ℕ → ℕ → ByteRange
at file offset length = record { source_file = file; offset = offset; length = length }

abbrev ranges : List ByteRange
ranges = at "a" 40 10 ∷ at "a" 0 10 ∷ at "a" 12 8 ∷ at "b" 50 5 ∷ []

abbrev before : ByteRange → ByteRange → Bool
before a b = lex_leb (a.offset ∷ []) (b.offset ∷ [])

merged : merge_ranges 4 100 before ranges ≡ at "a" 0 20 ∷ at "a" 40 10 ∷ at "b" 50 5 ∷ []
unfolding merge_ranges
merged = refl

before-offset :
    (a b : ByteRange)
    → before a b ≡ true
    → str_eq a.source_file b.source_file ≡ true
    → a.offset ≤ b.offset
before-offset a b h k = ground (arith, h)

merge_ranges-IsCovered_example : All (IsCovered (merge_ranges 4 100 before ranges)) ranges
merge_ranges-IsCovered_example =
    merge_ranges-IsCovered 4 100 before (lex_leb-IsOrder (λ (r : ByteRange). r.offset ∷ []))
      before-offset ranges

merge_ranges-IsBounded_example : All (IsBounded 100 ranges) (merge_ranges 4 100 before ranges)
merge_ranges-IsBounded_example = merge_ranges-IsBounded 4 100 before ranges
