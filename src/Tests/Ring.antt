-- ===== src/Tests/Ring.antt =====
-- Tests of the rings and walks of internal/lattice.
use hexxladb.Base.{ℕ, ◌+◌, ◌*◌, ◌^◌, some, ◌≡◌, arith, List, [], ◌∷◌, ◌++◌, length, Bool, ltb}
use hexxladb.Base.Int.{pos, negsuc}
use hexxladb.Lattice.Coord.{Coord}
use hexxladb.Lattice.Ring.{walk_rings}
use hexxladb.Lattice.Ring.Distance.{walk_rings-Concentric, Concentric}
use hexxladb.Lattice.Ring.Packed.{
  CoordPacked, AllReadBack, coords, packable, walk_rings_coord_packed, walk_rings_coord_packed_lem,
}
use hexxladb.Lattice.Ring.Seq.{walk_rings_seq}
use hexxladb.Lattice.Ring.Seq.Laws.{for_each, walk_rings_seq-walk_rings}

abbrev center : Coord
center = record { q = pos 3; r = negsuc 1 }

-- A callback that counts the cells and stops at the fourth.
abbrev up_to_four : {A : Type 0} → A → ℕ → Bool × ℕ
up_to_four c n = (ltb n 3, n + 1)

walk_rings-Concentric_example :
    (cells : List Coord) × (walk_rings [] center (pos 2) ≡ [] ++ center ∷ cells)
    × (length cells ≡ 3 * (2 * 2) + 3 * 2)
    × Concentric center 2 1 cells
walk_rings-Concentric_example = walk_rings-Concentric [] center 2 (omega arith) (omega arith)

walk_rings_coord_packed_lem_example :
    (out : List CoordPacked) × (walk_rings_coord_packed (2 ^ 48) center (pos 1) ≡ some out)
    × (coords out ≡ packable (walk_rings [] center (pos 1)))
    × AllReadBack out
walk_rings_coord_packed_lem_example =
    walk_rings_coord_packed_lem (2 ^ 48) center 1 (omega arith) (omega arith)

walk_rings_seq-walk_rings_example :
    walk_rings_seq up_to_four center (pos 2) 0
    ≡ for_each up_to_four (walk_rings [] center (pos 2)) 0
walk_rings_seq-walk_rings_example = walk_rings_seq-walk_rings up_to_four center (pos 2) 0
