-- ===== src/Lattice/Ring/Walk.antt =====
-- A spiral is the part of a walk over the rings between two radii.
use hexxladb.Base.{
  ℕ, zero, suc, ◌+◌, ◌-◌, ◌<◌, ◌≡◌, sym, ap, ◌∙◌, arith, List, [], ◌∷◌, ◌++◌, max, true, false,
}
use hexxladb.Base.Int.{pos, ltb_ℤ}
use hexxladb.Lattice.Coord.{Coord}
use hexxladb.Lattice.Ring.{ring_into, rings, walk_rings, spiral_range}

rings-split :
    (a b k : ℕ) (center : Coord) (dst : List Coord)
    → rings (a + b) k center dst ≡ rings b (k + a) center (rings a k center dst)
unfolding rings
rings-split zero b k center dst =
    let none_left : 0 + b ≡ b = omega arith in
    let same : k + 0 ≡ k = omega arith in rw (none_left, same)
rings-split (suc a) b k center dst =
    let one_more : suc a + b ≡ suc (a + b) = omega arith in
    let next : k + suc a ≡ k + 1 + a = omega arith in
    rw (one_more, next) (rings-split a b (k + 1) center (ring_into dst center (pos k)))

spiral_from_zero :
    (dst : List Coord) (center : Coord) (a : ℕ)
    → spiral_range dst center (pos 0) (pos a) ≡ walk_rings dst center (pos a)
unfolding spiral_range walk_rings
spiral_from_zero dst center a =
    let lower : ltb_ℤ (pos a) (pos 0) ≡ false = ground arith in
    let rounds : a + 1 - 1 ≡ a = omega arith in rw (lower, rounds)

spiral_from_next :
    (dst : List Coord) (center : Coord) (a b : ℕ)
    → a < b
    → spiral_range dst center (pos (a + 1)) (pos b) ≡ rings (b - a) (1 + a) center dst
unfolding spiral_range
spiral_from_next dst center a b h =
    let lower : ltb_ℤ (pos b) (pos 0) ≡ false = ground arith in
    let upper : ltb_ℤ (pos b) (pos (a + 1)) ≡ false = ground arith in
    let outside : ltb_ℤ (pos 0) (pos (a + 1)) ≡ true = ground arith in
    let start : max (a + 1) 1 ≡ 1 + a = omega arith in
    let rounds : b + 1 - (1 + a) ≡ b - a = omega arith in rw (lower, upper, outside, start, rounds)

-- For radii a < b the spiral from 0 to a, continued by the one from a + 1 to b, is the walk over the
-- rings up to b.
pub spiral_range-walk_rings :
    (dst : List Coord) (center : Coord) (a b : ℕ)
    → a < b
    → spiral_range (spiral_range dst center (pos 0) (pos a)) center (pos (a + 1)) (pos b)
      ≡ walk_rings dst center (pos b)
unfolding walk_rings
spiral_range-walk_rings dst center a b h =
    let all : a + (b - a) ≡ b = omega arith in
    rw (spiral_from_zero dst center a) (
      spiral_from_next _ center a b h
      ∙ sym (rings-split a (b - a) 1 center (dst ++ center ∷ []))
      ∙ ap (λ n. rings n 1 center (dst ++ center ∷ [])) all)
