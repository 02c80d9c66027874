-- ===== src/Lattice/Ring/Seq.antt =====
-- internal/lattice/ring.go and walk.go: the iterators over rings. `yield` is a function on a state,
-- and an iterator returns whether every call of it answered true, with the state that it left.
pub mod Laws
use hexxladb.Base.{
  ℕ, zero, suc, ◌+◌, ◌-◌, ◌%◌, max, List, [], ◌∷◌, Option, none, some, Bool, true, false, ◌||◌,
  if◌then◌else◌,
}
use hexxladb.Base.Int.{ℤ, pos, negsuc, pos_part, ltb_ℤ}
use hexxladb.Lattice.Coord.{Coord, Cube, to_cube}
use hexxladb.Lattice.PackedCoord.{PackedCoord}
use hexxladb.Lattice.Packed.{pack}
use hexxladb.Lattice.Ring.{cube_neighbor, cube_to_coord, cube_add, cube_scale, direction}
use hexxladb.Lattice.Ring.Packed.{CoordPacked}

-- if !yield(...) { return }, and then `next`.
abbrev pub go_on : {S : Type 0} → (S → Bool × S) → Bool × S → Bool × S
go_on next (true, s) = next s
go_on next (false, s) = (false, s)

module _ {S : Type 0} (yield : Coord → S → Bool × S) where
  -- The inner loop of RingSeq, with the rounds that are left; `next` goes on from `cur`.
  unfoldable pub side_seq : ℕ → ℕ → (Cube → S → Bool × S) → Cube → S → Bool × S
  side_seq zero dir next cur s = next cur s
  side_seq (suc rounds) dir next cur s =
      go_on (side_seq rounds dir next (cube_neighbor cur dir)) (yield (cube_to_coord cur) s)

  -- The outer loop of RingSeq from side i on.
  unfoldable pub sides_seq : ℕ → ℕ → ℕ → Cube → S → Bool × S
  unfolding side_seq
  sides_seq zero i k cur s = (true, s)
  sides_seq (suc rounds) i k cur s =
      side_seq k ((i + 2) % 6) (λ cur' s'. sides_seq rounds (i + 1) k cur' s') cur s

  -- RingSeq
  unfoldable pub ring_seq : Coord → ℤ → S → Bool × S
  unfolding sides_seq
  ring_seq center (negsuc n) s = (true, s)
  ring_seq center (pos zero) s = yield center s
  ring_seq center (pos (suc n)) s =
      let k = pos (suc n) in
      sides_seq 6 0 (suc n) (cube_add (to_cube center) (cube_scale (direction 0) k)) s

  -- The loop of WalkRingsSeq and SpiralRangeSeq over the rings k, k + 1 and so on.
  unfoldable pub rings_seq : ℕ → ℕ → Coord → S → Bool × S
  unfolding ring_seq
  rings_seq zero k center s = (true, s)
  rings_seq (suc rounds) k center s =
      go_on (rings_seq rounds (k + 1) center) (ring_seq center (pos k) s)

  -- WalkRingsSeq
  unfoldable pub walk_rings_seq : Coord → ℤ → S → Bool × S
  unfolding rings_seq
  walk_rings_seq center (negsuc n) s = (true, s)
  walk_rings_seq center (pos max_r) s = go_on (rings_seq max_r 1 center) (yield center s)

  -- SpiralRangeSeq
  unfoldable pub spiral_range_seq : Coord → ℤ → ℤ → S → Bool × S
  unfolding rings_seq
  spiral_range_seq center min_r max_r s =
      let start = max (pos_part min_r) 1 in
      let rest = rings_seq (pos_part max_r + 1 - start) start center in
      if ltb_ℤ max_r (pos 0) || ltb_ℤ max_r min_r
      then (true, s)
      else if ltb_ℤ (pos 0) min_r
      then rest s
      else go_on rest (yield center s)

-- The body of the loop in the packed iterators, from the outcome of Pack.
abbrev pub yield_if_packed :
    {S : Type 0} → (CoordPacked → S → Bool × S) → Coord → Option PackedCoord → S → Bool × S
yield_if_packed yield c none s = (true, s)
yield_if_packed yield c (some p) s = yield (record { coord = c; packed = p }) s

abbrev pub yield_packed : {S : Type 0} → (CoordPacked → S → Bool × S) → Coord → S → Bool × S
yield_packed yield c s = yield_if_packed yield c (pack c) s

module _ {S : Type 0} (yield : CoordPacked → S → Bool × S) where
  -- WalkRingsPackedSeq
  unfoldable pub walk_rings_packed_seq : Coord → ℤ → S → Bool × S
  walk_rings_packed_seq = walk_rings_seq (yield_packed yield)

  -- SpiralRangePackedSeq
  unfoldable pub spiral_range_packed_seq : Coord → ℤ → ℤ → S → Bool × S
  spiral_range_packed_seq = spiral_range_seq (yield_packed yield)
