-- ===== src/Lattice/Ring.antt =====
-- internal/lattice/ring.go: the cells at one distance of a center, and the walk over the rings.
pub mod Side
pub mod Moves
pub mod Distance
pub mod Append
pub mod Walk
pub mod Packed
pub mod Seq
pub mod Neighbors
pub mod Keys
use hexxladb.Base.{
  ℕ, zero, suc, ◌+◌, ◌-◌, ◌%◌, max, List, [], ◌∷◌, ◌++◌, ◌||◌, get_or, if◌then◌else◌,
}
use hexxladb.Base.Int.{ℤ, pos, negsuc, pos_part, ltb_ℤ}
use hexxladb.Lattice.Int64.{add64, mul64}
use hexxladb.Lattice.Coord.{Coord, Cube, to_cube}

-- cubeDirections
abbrev pub cube_directions : List Cube
cube_directions =
    record { q = pos 1; r = pos 0; s = negsuc 0 }
    ∷ record { q = pos 1; r = negsuc 0; s = pos 0 }
    ∷ record { q = pos 0; r = negsuc 0; s = pos 1 }
    ∷ record { q = negsuc 0; r = pos 0; s = pos 1 }
    ∷ record { q = negsuc 0; r = pos 1; s = pos 0 }
    ∷ record { q = pos 0; r = pos 1; s = negsuc 0 }
    ∷ []

-- cubeDirections[dir], for dir below 6
abbrev pub direction : ℕ → Cube
direction dir = get_or cube_directions dir (record { q = pos 0; r = pos 0; s = pos 0 })

-- cubeAdd
unfoldable pub cube_add : Cube → Cube → Cube
cube_add a b = record { q = add64 a.q b.q; r = add64 a.r b.r; s = add64 a.s b.s }

-- cubeScale
unfoldable pub cube_scale : Cube → ℤ → Cube
cube_scale d k = record { q = mul64 d.q k; r = mul64 d.r k; s = mul64 d.s k }

-- cubeNeighbor
unfoldable pub cube_neighbor : Cube → ℕ → Cube
cube_neighbor c dir =
    let d = direction dir in record { q = add64 c.q d.q; r = add64 c.r d.r; s = add64 c.s d.s }

-- cubeToCoord
abbrev pub cube_to_coord : Cube → Coord
cube_to_coord c = record { q = c.q; r = c.r }

-- The inner loop of RingInto, with the rounds that are left: the cells so far and `cur`.
pub side : ℕ → ℕ → List Coord → Cube → List Coord × Cube
side zero dir dst cur = (dst, cur)
side (suc rounds) dir dst cur =
    side rounds dir (dst ++ cube_to_coord cur ∷ []) (cube_neighbor cur dir)

-- The outer loop of RingInto from side i on.
pub sides : ℕ → ℕ → ℕ → List Coord × Cube → List Coord
unfolding side
sides zero i k (dst, cur) = dst
sides (suc rounds) i k (dst, cur) = sides rounds (i + 1) k (side k ((i + 2) % 6) dst cur)

-- RingInto
unfoldable pub ring_into : List Coord → Coord → ℤ → List Coord
ring_into dst center (negsuc n) = dst
ring_into dst center (pos zero) = dst ++ center ∷ []
ring_into dst center (pos (suc n)) =
    let k = pos (suc n) in
    sides 6 0 (suc n) (dst, cube_add (to_cube center) (cube_scale (direction 0) k))

-- Ring, which has the same loops over a slice of its own.
unfoldable pub ring : Coord → ℤ → List Coord
unfolding ring_into
ring center k = ring_into [] center k

-- The loop of WalkRings and SpiralRange over the rings k, k + 1 and so on.
pub rings : ℕ → ℕ → Coord → List Coord → List Coord
rings zero k center dst = dst
rings (suc rounds) k center dst = rings rounds (k + 1) center (ring_into dst center (pos k))

-- WalkRings
unfoldable pub walk_rings : List Coord → Coord → ℤ → List Coord
unfolding rings
walk_rings dst center (negsuc n) = dst
walk_rings dst center (pos max_r) = rings max_r 1 center (dst ++ center ∷ [])

-- SpiralRange
unfoldable pub spiral_range : List Coord → Coord → ℤ → ℤ → List Coord
unfolding rings
spiral_range dst center min_r max_r =
    if ltb_ℤ max_r (pos 0) || ltb_ℤ max_r min_r
    then dst
    else (let with_center = if ltb_ℤ (pos 0) min_r then dst else dst ++ center ∷ [] in
        let start = max (pos_part min_r) 1 in
        rings (pos_part max_r + 1 - start) start center with_center)
