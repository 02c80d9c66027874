-- ===== src/Index/Facet.antt =====
-- internal/index/facet_key.go: the keys of the six facets of a cell.
pub mod Laws
use hexxladb.Base.{
  ℕ, ◌-◌, ◌^◌, List, [], ◌∷◌, ◌++◌, Option, none, some, ◌&&◌, not, length, take, drop, get_or, ltb,
  ◌==◌, if◌then◌else◌, Result, ok, err, ◌>>=◌, if_ok,
}
use hexxladb.Bytes.BigEndian.{be, of_be}
use hexxladb.Bytes.Slices.{codes, cut_prefix}
use hexxladb.Lattice.PackedCoord.{PackedCoord}
use hexxladb.Index.Errors.{KeyError, wrong_prefix, bad_length, bad_separator, facet_id_out_of_range}
use hexxladb.Index.Packed.{packed_be, of_packed_be}

-- FacetPrefix
abbrev pub facet_prefix : List ℕ
facet_prefix = codes "facet/"

-- MaxFacetID
abbrev pub max_facet_id : ℕ
max_facet_id = 5

-- FacetKey
unfoldable pub facet_key : PackedCoord → ℕ → Result KeyError (List ℕ)
facet_key p facet_id =
    if ltb max_facet_id facet_id
    then err facet_id_out_of_range
    else ok (facet_prefix ++ (packed_be p ++ b'/' ∷ facet_id ∷ []))

-- FacetRangeLower
abbrev pub facet_range_lower : PackedCoord → Result KeyError (List ℕ)
facet_range_lower p = facet_key p 0

-- FacetRangeUpper
abbrev pub facet_range_upper : PackedCoord → Result KeyError (List ℕ)
facet_range_upper p = facet_key p max_facet_id

-- FacetKeyWithVersion
unfoldable pub facet_key_with_version : PackedCoord → ℕ → ℕ → Result KeyError (List ℕ)
facet_key_with_version p facet_id commit_seq = do
  base ← facet_key p facet_id
  ok (base ++ be 8 commit_seq)

-- FacetVersionScanBounds
unfoldable pub facet_version_scan_bounds : PackedCoord → ℕ → Result KeyError (List ℕ × List ℕ)
facet_version_scan_bounds p facet_id = do
  from ← facet_key_with_version p facet_id 0
  to ← facet_key_with_version p facet_id (2 ^ 64 - 1)
  ok (from, to)

-- FacetCellAllVersionsRange
unfoldable pub facet_cell_all_versions_range : PackedCoord → Result KeyError (List ℕ × List ℕ)
facet_cell_all_versions_range p = do
  from ← facet_key_with_version p 0 0
  to ← facet_key_with_version p max_facet_id (2 ^ 64 - 1)
  ok (from, to)

-- ParseFacetKey after its test of the prefix.
parse_facet_rest : Option (List ℕ) → Result KeyError (PackedCoord × ℕ)
parse_facet_rest none = err wrong_prefix
parse_facet_rest (some rest) =
    let facet_id = get_or rest 17 0 in
    if not (length rest == 18) && not (length rest == 26)
    then err bad_length
    else if not (get_or rest 16 0 == b'/')
    then err bad_separator
    else if ltb max_facet_id facet_id
    then err facet_id_out_of_range
    else ok (of_packed_be (take 16 rest), facet_id)

-- ParseFacetKey
unfoldable pub parse_facet_key : List ℕ → Result KeyError (PackedCoord × ℕ)
unfolding parse_facet_rest
parse_facet_key key = parse_facet_rest (cut_prefix facet_prefix key)

-- ParseFacetCommitSeq from the outcome of ParseFacetKey.
facet_commit_seq : List ℕ → Result KeyError (PackedCoord × ℕ) → Option ℕ
facet_commit_seq key (err e) = none
facet_commit_seq key (ok r) =
    let rest_length = length key - length facet_prefix in
    if rest_length == 18
    then some 0
    else if rest_length == 26
    then some (of_be (drop (length key - 8) key))
    else none

-- ParseFacetCommitSeq
unfoldable pub parse_facet_commit_seq : List ℕ → Option ℕ
unfolding facet_commit_seq
parse_facet_commit_seq key = facet_commit_seq key (parse_facet_key key)
