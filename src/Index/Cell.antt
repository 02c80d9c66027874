-- ===== src/Index/Cell.antt =====
-- internal/index/cell_key.go and cell_version.go: primary cell keys, with and without the
-- commit sequence of a version.
pub mod Laws
use hexxladb.Base.{
  ℕ, ◌+◌, ◌-◌, ◌^◌, ◌≡◌, List, ◌++◌, Option, none, some, Bool, length, take, drop, ◌==◌,
  if◌then◌else◌, Result, ok, err, ◌>>=◌, if_ok,
}
use hexxladb.Bytes.BigEndian.{be, of_be}
use hexxladb.Bytes.Slices.{codes, cut_prefix}
use hexxladb.Lattice.PackedCoord.{PackedCoord}
use hexxladb.Index.Packed.{packed_be, of_packed_be}
use hexxladb.Index.Errors.{KeyError, wrong_prefix, bad_length}

-- CellPrefix
abbrev pub cell_prefix : List ℕ
cell_prefix = codes "cell/"

-- CellKey
unfoldable pub cell_key : PackedCoord → List ℕ
cell_key p = cell_prefix ++ packed_be p

parse_cell_suffix : Option (List ℕ) → Result KeyError PackedCoord
parse_cell_suffix none = err wrong_prefix
parse_cell_suffix (some suf) = if length suf == 16 then ok (of_packed_be suf) else err bad_length

-- ParseCellKey
unfoldable pub parse_cell_key : List ℕ → Result KeyError PackedCoord
unfolding parse_cell_suffix
parse_cell_key key = parse_cell_suffix (cut_prefix cell_prefix key)

-- CellKeyWithVersion
unfoldable pub cell_key_with_version : PackedCoord → ℕ → List ℕ
cell_key_with_version p commit_seq = cell_key p ++ be 8 commit_seq

-- ParseCellVersionKey. The length that it wants is 5 + 16 + 8.
unfoldable pub parse_cell_version_key : List ℕ → Result KeyError (PackedCoord × ℕ)
parse_cell_version_key key =
    if length key == 29
    then (do p ← parse_cell_key (take 21 key); ok (p, of_be (drop (length key - 8) key)))
    else err bad_length

-- CellVersionScanBounds
unfoldable pub cell_version_scan_bounds : PackedCoord → List ℕ × List ℕ
unfolding cell_key_with_version
cell_version_scan_bounds p = (cell_key_with_version p 0, cell_key_with_version p (2 ^ 64 - 1))

-- ParseCommitSeqFromCellKey
unfoldable pub parse_commit_seq_from_cell_key : List ℕ → Option ℕ
parse_commit_seq_from_cell_key key =
    if length key == 29
    then if_ok (parse_cell_key (take 21 key)) (of_be (drop (length key - 8) key))
    else none
