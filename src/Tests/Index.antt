-- ===== src/Tests/Index.antt =====
-- Tests of internal/index.
use hexxladb.Base.{ℕ, ◌^◌, ◌-◌, ◌≡◌, ◌↔◌, refl, arith, List, [], ◌∷◌, ◌++◌, length, some, ok, ◌>>=◌}
use hexxladb.Bytes.BigEndian.{be, AllBytes}
use hexxladb.Bytes.Order.{bytes_compare, then_by, InRange}
use hexxladb.Lattice.PackedCoord.{PackedCoord, IsWords, compare_packed}
use hexxladb.Index.Packed.{packed_be, min_packed, max_packed}
use hexxladb.Index.Cell.{cell_key, cell_key_with_version, cell_version_scan_bounds}
use hexxladb.Index.Cell.Laws.{
  parse-cell_key, cell_key_of_parse, compare-cell_key_with_version,
  cell_version_scan_bounds-InRange,
}
use hexxladb.Index.Segment.{
  segment_key, segment_key_with_version, range_prefix, range_prefix_all_versions,
}
use hexxladb.Index.Tag.{
  tag_prefix, source_prefix, tag_key, tag_key_with_version, tag_range_prefix,
  tag_range_prefix_all_versions, parse_tag_key_with_seq, source_key_with_version,
  source_range_prefix_all_versions,
}
use hexxladb.Index.Tag.Laws.{parse-tag_key_with_version, tag_range_prefix_all_versions-InRange}
use Prim.Native.Nat.{compare}

abbrev here : PackedCoord
here = record { lo = 94; hi = 0 }

abbrev there : PackedCoord
there = record { lo = 300; hi = 1 }

here-IsWords : IsWords here
here-IsWords = record { lo_bound = omega arith; hi_bound = omega arith }

there-IsWords : IsWords there
there-IsWords = record { lo_bound = omega arith; hi_bound = omega arith }

abbrev ab : List ℕ
ab = 97 ∷ 98 ∷ []

abbrev abc : List ℕ
abc = 97 ∷ 98 ∷ 99 ∷ []

cell_key_bytes : AllBytes (cell_key here)
unfolding cell_key packed_be be
cell_key_bytes = omega arith

cell_key_of_parse_example : (cell_key here ≡ cell_key here) × IsWords here
cell_key_of_parse_example =
    cell_key_of_parse (cell_key here) cell_key_bytes (parse-cell_key here here-IsWords)

compare-cell_key_with_version_example :
    bytes_compare (cell_key_with_version here 3) (cell_key_with_version there 2)
    ≡ then_by (compare_packed here there) (compare 3 2)
compare-cell_key_with_version_example =
    compare-cell_key_with_version here there 3 2 here-IsWords there-IsWords (omega arith)
      (omega arith)

cell_version_scan_bounds-InRange_example :
    InRange
      (cell_version_scan_bounds here).0
      (cell_version_scan_bounds here).1
      (cell_key_with_version there 2)
    ↔ (here ≡ there)
cell_version_scan_bounds-InRange_example =
    cell_version_scan_bounds-InRange here there 2 here-IsWords there-IsWords (omega arith)

parse-tag_key_with_version_example :
    (tag_key_with_version ab here 9 >>= parse_tag_key_with_seq) ≡ ok (ab, here, some 9)
parse-tag_key_with_version_example =
    parse-tag_key_with_version ab here 9 here-IsWords (omega arith) (omega arith)

-- What the keys of a text begin with.
abbrev head : List ℕ → List ℕ → List ℕ
head prefix id = prefix ++ be 2 (length id) ++ id ++ b'/' ∷ []

abbrev first_of : List ℕ → List ℕ
first_of prefix = head prefix ab ++ packed_be min_packed

abbrev last_of : List ℕ → List ℕ
last_of prefix = head prefix ab ++ packed_be max_packed

abbrev key_of : List ℕ → List ℕ
key_of prefix = (prefix ++ be 2 3 ++ abc) ++ b'/' ∷ [] ++ packed_be here

tag_range : tag_range_prefix ab ≡ ok (first_of tag_prefix, last_of tag_prefix)
unfolding tag_range_prefix range_prefix
tag_range = refl

tag_range_all :
    tag_range_prefix_all_versions ab
    ≡ ok (first_of tag_prefix ++ be 8 0, last_of tag_prefix ++ be 8 (2 ^ 64 - 1))
unfolding tag_range_prefix_all_versions range_prefix_all_versions
tag_range_all = refl

source_range_all :
    source_range_prefix_all_versions ab
    ≡ ok (first_of source_prefix ++ be 8 0, last_of source_prefix ++ be 8 (2 ^ 64 - 1))
unfolding source_range_prefix_all_versions range_prefix_all_versions
source_range_all = refl

abc_key : tag_key abc here ≡ ok (key_of tag_prefix)
unfolding tag_key segment_key
abc_key = refl

abc_key_7 : tag_key_with_version abc here 7 ≡ ok (key_of tag_prefix ++ be 8 7)
unfolding tag_key_with_version segment_key_with_version
abc_key_7 = refl

source_abc_key_7 : source_key_with_version abc here 7 ≡ ok (key_of source_prefix ++ be 8 7)
unfolding source_key_with_version segment_key_with_version
source_abc_key_7 = refl

tag_range_prefix_all_versions-InRange_example :
    InRange
      (first_of tag_prefix ++ be 8 0)
      (last_of tag_prefix ++ be 8 (2 ^ 64 - 1))
      (key_of tag_prefix ++ be 8 7)
    ↔ (ab ≡ abc)
tag_range_prefix_all_versions-InRange_example =
    tag_range_prefix_all_versions-InRange ab abc here 7 here-IsWords (omega arith) (omega arith)
      (omega arith) tag_range_all abc_key_7
