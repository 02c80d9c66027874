-- ===== src/Tests/Facet.antt =====
-- Tests of the facet keys of internal/index.
use hexxladb.Base.{ℕ, ◌-◌, ◌^◌, ◌≡◌, ◌↔◌, refl, arith, List, [], ◌∷◌, ◌++◌, ok}
use hexxladb.Bytes.BigEndian.{be}
use hexxladb.Bytes.Order.{InRange}
use hexxladb.Lattice.PackedCoord.{PackedCoord, IsWords}
use hexxladb.Index.Packed.{packed_be}
use hexxladb.Index.Facet.{
  facet_prefix, facet_key, facet_key_with_version, facet_cell_all_versions_range,
}
use hexxladb.Index.Facet.Laws.{facet_cell_all_versions_range-InRange}

abbrev here : PackedCoord
here = record { lo = 94; hi = 0 }

abbrev there : PackedCoord
there = record { lo = 300; hi = 1 }

here-IsWords : IsWords here
here-IsWords = record { lo_bound = omega arith; hi_bound = omega arith }

there-IsWords : IsWords there
there-IsWords = record { lo_bound = omega arith; hi_bound = omega arith }

abbrev key_of : PackedCoord → ℕ → ℕ → List ℕ
key_of p facet_id s = (facet_prefix ++ (packed_be p ++ b'/' ∷ facet_id ∷ [])) ++ be 8 s

range_of_here :
    facet_cell_all_versions_range here ≡ ok (key_of here 0 0, key_of here 5 (2 ^ 64 - 1))
unfolding facet_cell_all_versions_range facet_key_with_version facet_key
range_of_here = refl

key_there : facet_key_with_version there 4 9 ≡ ok (key_of there 4 9)
unfolding facet_key_with_version facet_key
key_there = refl

facet_cell_all_versions_range-InRange_example :
    InRange (key_of here 0 0) (key_of here 5 (2 ^ 64 - 1)) (key_of there 4 9) ↔ (here ≡ there)
facet_cell_all_versions_range-InRange_example =
    facet_cell_all_versions_range-InRange here there 4 9 here-IsWords there-IsWords (omega arith)
      (omega arith) range_of_here key_there
