-- ===== src/Mvcc/Keys.antt =====
-- The physical keys of internal/mvcc are the versioned cell keys of internal/index.
use hexxladb.Base.{ℕ, ◌^◌, ◌<◌, ◌≡◌, refl, List, some}
use hexxladb.Lattice.PackedCoord.{PackedCoord, IsWords}
use hexxladb.Index.Cell.{
  cell_key_with_version, cell_version_scan_bounds, parse_commit_seq_from_cell_key,
}
use hexxladb.Index.Cell.Laws.{parse_commit_seq-cell_key_with_version}
use hexxladb.Mvcc.{
  cell_physical_key_with_version_suffix, parse_commit_seq_from_physical_key,
  cell_version_suffix_scan_bounds,
}

-- The two packages write the same key for a cell and a commit sequence, have the same scan bounds
-- for a cell, and read the same commit sequence, or none, from any key.
pub physical_key_lem :
    (p : PackedCoord) (commit_seq : ℕ) (key : List ℕ)
    → (cell_physical_key_with_version_suffix p commit_seq ≡ cell_key_with_version p commit_seq)
      × (cell_version_suffix_scan_bounds p ≡ cell_version_scan_bounds p)
      × (parse_commit_seq_from_physical_key key ≡ parse_commit_seq_from_cell_key key)
unfolding cell_physical_key_with_version_suffix cell_key_with_version
    cell_version_suffix_scan_bounds cell_version_scan_bounds parse_commit_seq_from_physical_key
    parse_commit_seq_from_cell_key
physical_key_lem p s key = (refl, refl, refl)

-- From the key of a cell whose coordinate has 64-bit words and a 64-bit commit sequence, the commit
-- sequence is read back.
pub parse_commit_seq-physical_key :
    (p : PackedCoord) (commit_seq : ℕ)
    → IsWords p
    → commit_seq < 2 ^ 64
    → parse_commit_seq_from_physical_key (cell_physical_key_with_version_suffix p commit_seq)
      ≡ some commit_seq
parse_commit_seq-physical_key p s w h =
    let (written, bounds, read) =
      physical_key_lem p s (cell_physical_key_with_version_suffix p s) in
    rw (read, written) (parse_commit_seq-cell_key_with_version p s w h)
