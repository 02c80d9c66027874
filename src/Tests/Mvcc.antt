-- ===== src/Tests/Mvcc.antt =====
-- Tests of internal/mvcc.
use hexxladb.Base.{◌≡◌, arith, [], ◌∷◌, ◌++◌}
use hexxladb.Lattice.PackedCoord.{PackedCoord}
use hexxladb.Index.Cell.{
  cell_key_with_version, cell_version_scan_bounds, parse_commit_seq_from_cell_key,
}
use hexxladb.Mvcc.{
  VersionKv, select_visible, cell_physical_key_with_version_suffix,
  parse_commit_seq_from_physical_key, cell_version_suffix_scan_bounds,
}
use hexxladb.Mvcc.Visible.{Answers, select_visible-Answers}
use hexxladb.Mvcc.Snapshot.{select_visible_stable}
use hexxladb.Mvcc.Keys.{physical_key_lem}

abbrev v2 : VersionKv
v2 = record { commit_seq = 2; value = 20 ∷ [] }

abbrev v5 : VersionKv
v5 = record { commit_seq = 5; value = 50 ∷ [] }

abbrev v9 : VersionKv
v9 = record { commit_seq = 9; value = [] }

abbrev here : PackedCoord
here = record { lo = 94; hi = 0 }

select_visible-Answers_example :
    Answers 7 (v5 ∷ v2 ∷ v9 ∷ []) (select_visible (v5 ∷ v2 ∷ v9 ∷ []) 7)
select_visible-Answers_example = select_visible-Answers (v5 ∷ v2 ∷ v9 ∷ []) 7

select_visible_stable_example :
    select_visible ((v2 ∷ v5 ∷ []) ++ (v9 ∷ [])) 7 ≡ select_visible (v2 ∷ v5 ∷ []) 7
select_visible_stable_example = select_visible_stable (v2 ∷ v5 ∷ []) (v9 ∷ []) 7 (omega arith, tt)

physical_key_lem_example :
    (cell_physical_key_with_version_suffix here 3 ≡ cell_key_with_version here 3)
    × (cell_version_suffix_scan_bounds here ≡ cell_version_scan_bounds here)
    × (parse_commit_seq_from_physical_key (cell_physical_key_with_version_suffix here 3)
        ≡ parse_commit_seq_from_cell_key (cell_physical_key_with_version_suffix here 3))
physical_key_lem_example = physical_key_lem here 3 (cell_physical_key_with_version_suffix here 3)
