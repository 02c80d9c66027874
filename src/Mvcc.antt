-- ===== src/Mvcc.antt =====
-- internal/mvcc/version_suffix_cell_key.go: physical keys with a version suffix, and the choice of
-- the version that a reader sees.
pub mod Visible
pub mod Snapshot
pub mod Keys
use hexxladb.Base.{
  ℕ, ◌-◌, ◌^◌, List, [], ◌∷◌, ◌++◌, Option, none, some, length, drop, take, ltb, ◌==◌,
  if◌then◌else◌, if_ok,
}
use hexxladb.Bytes.BigEndian.{be, of_be}
use hexxladb.Lattice.PackedCoord.{PackedCoord}
use hexxladb.Index.Cell.{cell_key, parse_cell_key}

-- CellPhysicalKeyWithVersionSuffix
unfoldable pub cell_physical_key_with_version_suffix : PackedCoord → ℕ → List ℕ
cell_physical_key_with_version_suffix p commit_seq = cell_key p ++ be 8 commit_seq

-- ParseCommitSeqFromPhysicalKey
unfoldable pub parse_commit_seq_from_physical_key : List ℕ → Option ℕ
parse_commit_seq_from_physical_key key =
    if length key == 29
    then if_ok (parse_cell_key (take 21 key)) (of_be (drop (length key - 8) key))
    else none

-- CellVersionSuffixScanBounds
unfoldable pub cell_version_suffix_scan_bounds : PackedCoord → List ℕ × List ℕ
unfolding cell_physical_key_with_version_suffix
cell_version_suffix_scan_bounds p = (
  cell_physical_key_with_version_suffix p 0,
  cell_physical_key_with_version_suffix p (2 ^ 64 - 1),
)

-- VersionKV
pub record VersionKv : Type 0 where
  pub commit_seq : ℕ
  pub value : List ℕ

-- One round of the loop: `best` is the best version so far.
unfoldable pub better : ℕ → Option VersionKv → VersionKv → Option VersionKv
better read_seq none v = if ltb read_seq v.commit_seq then none else some v
better read_seq (some best) v =
    if ltb read_seq v.commit_seq
    then some best
    else if ltb best.commit_seq v.commit_seq
    then some v
    else some best

unfoldable pub best_loop : ℕ → Option VersionKv → List VersionKv → Option VersionKv
unfolding better
best_loop read_seq best [] = best
best_loop read_seq best (v ∷ vs) = best_loop read_seq (better read_seq best v) vs

abbrev found : Option VersionKv → Option (List ℕ × ℕ)
found none = none
found (some best) = some (best.value, best.commit_seq)

-- SelectVisible
unfoldable pub select_visible : List VersionKv → ℕ → Option (List ℕ × ℕ)
unfolding best_loop
select_visible versions read_seq = found (best_loop read_seq none versions)
