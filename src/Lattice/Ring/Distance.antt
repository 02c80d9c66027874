-- ===== src/Lattice/Ring/Distance.antt =====
-- The ring of k around a center has 6 k cells, each at distance k, and a walk goes outward over them.
use hexxladb.Base.{
  ℕ, zero, suc, ◌+◌, ◌-◌, ◌*◌, ◌^◌, ◌≤◌, ◌<◌, ◌≡◌, refl, sym, ap, ◌∙◌, arith, List, [], ◌∷◌, ◌++◌,
  length, append-nil, append_assoc, length-append,
}
use hexxladb.Base.Int.{pos, ◌*ℤ◌, sub_ℕ}
use hexxladb.Lattice.Int64.{mul64, wrap64_lem, int64_laws}
use hexxladb.Lattice.Coord.{Coord, Cube, to_cube}
use hexxladb.Lattice.Coord.Metric.{one_sided}
use hexxladb.Lattice.Ring.{direction, cube_add, cube_scale, sides, ring_into, rings, walk_rings}
use hexxladb.Lattice.Ring.Side.{AllAt, Walked}
use hexxladb.Lattice.Ring.Moves.{IsCenter, Moved, IsSide, walk_side}

IsSide-0 : (k : ℕ) → IsSide k 2 (λ n. k) (λ n. 0) (λ n. 0) (λ n. k - n)
IsSide-0 k = record {
  unit = omega arith;
  in_box = λ n le. omega arith;
  on_ring = λ n le. omega arith;
  next = λ n le. omega arith;
}

IsSide-1 : (k : ℕ) → IsSide k 3 (λ n. n) (λ n. 0) (λ n. 0) (λ n. k)
IsSide-1 k = record {
  unit = omega arith;
  in_box = λ n le. omega arith;
  on_ring = λ n le. omega arith;
  next = λ n le. omega arith;
}

IsSide-2 : (k : ℕ) → IsSide k 4 (λ n. 0) (λ n. k - n) (λ n. 0) (λ n. n)
IsSide-2 k = record {
  unit = omega arith;
  in_box = λ n le. omega arith;
  on_ring = λ n le. omega arith;
  next = λ n le. omega arith;
}

IsSide-3 : (k : ℕ) → IsSide k 5 (λ n. 0) (λ n. k) (λ n. k - n) (λ n. 0)
IsSide-3 k = record {
  unit = omega arith;
  in_box = λ n le. omega arith;
  on_ring = λ n le. omega arith;
  next = λ n le. omega arith;
}

IsSide-4 : (k : ℕ) → IsSide k 0 (λ n. 0) (λ n. n) (λ n. k) (λ n. 0)
IsSide-4 k = record {
  unit = omega arith;
  in_box = λ n le. omega arith;
  on_ring = λ n le. omega arith;
  next = λ n le. omega arith;
}

IsSide-5 : (k : ℕ) → IsSide k 1 (λ n. k - n) (λ n. 0) (λ n. n) (λ n. 0)
IsSide-5 k = record {
  unit = omega arith;
  in_box = λ n le. omega arith;
  on_ring = λ n le. omega arith;
  next = λ n le. omega arith;
}

mul64-one : (k : ℕ) → k < 2 ^ 63 → mul64 (pos 1) (pos k) ≡ pos k
unfolding mul64 ◌*ℤ◌
mul64-one k h =
    let whole : sub_ℕ (1 * k + 0 * 0) (1 * 0 + 0 * k) ≡ pos k = ground arith in
    rw whole (wrap64_lem (pos k) (omega arith))

mul64-zero : (k : ℕ) → mul64 (pos 0) (pos k) ≡ pos 0
unfolding mul64 ◌*ℤ◌
mul64-zero k =
    let whole : sub_ℕ (0 * k + 0 * 0) (0 * 0 + 0 * k) ≡ pos 0 = ground arith in
    rw whole (wrap64_lem (pos 0) (omega arith))

-- Where the ring of k starts.
start-Moved :
    (center : Coord) (k : ℕ)
    → IsCenter center
    → k ≤ 2 ^ 58
    → Moved center k 0 0 0 (cube_add (to_cube center) (cube_scale (direction 0) (pos k)))
unfolding cube_add cube_scale to_cube
start-Moved center k h bound = record {
  q_move = rw (mul64-one k (omega arith)) (omega (int64_laws, one_sided center.q));
  r_move = rw (mul64-zero k) (omega (int64_laws, one_sided center.r));
}

Moved-same :
    {center : Coord} {a b c d a' b' c' d' : ℕ} {cur : Cube}
    → Moved center a b c d cur
    → a' + b ≡ b' + a
    → c' + d ≡ d' + c
    → Moved center a' b' c' d' cur
Moved-same m e f = record { q_move = omega (arith, m.q_move); r_move = omega (arith, m.r_move) }

-- For a center with |Q| and |R| at most 2 ^ 58 and 0 < k ≤ 2 ^ 58, RingInto appends 6 k cells, each at
-- distance k from the center.
pub ring_into-Walked :
    (dst : List Coord) (center : Coord) (k : ℕ)
    → IsCenter center
    → k ≤ 2 ^ 58
    → 0 < k
    → Walked center (pos k) dst (6 * k) (ring_into dst center (pos k))
unfolding ring_into sides
ring_into-Walked dst center zero h bound p = absurd (omega arith)
ring_into-Walked dst center (suc j) h bound p =
    let k = suc j in
    let cur = cube_add (to_cube center) (cube_scale (direction 0) (pos k)) in
    let none_yet : Walked center (pos k) dst 0 dst = ([], sym (append-nil dst), refl, tt) in
    let (w0, m0) =
      walk_side center h k bound 2 _ _ _ _ (IsSide-0 k) 0 dst dst cur
        (Moved-same (start-Moved center k h bound) (omega arith) (omega arith)) none_yet in
    let (w1, m1) =
      walk_side center h k bound 3 _ _ _ _ (IsSide-1 k) _ dst _ _
        (Moved-same m0 (omega arith) (omega arith)) w0 in
    let (w2, m2) =
      walk_side center h k bound 4 _ _ _ _ (IsSide-2 k) _ dst _ _
        (Moved-same m1 (omega arith) (omega arith)) w1 in
    let (w3, m3) =
      walk_side center h k bound 5 _ _ _ _ (IsSide-3 k) _ dst _ _
        (Moved-same m2 (omega arith) (omega arith)) w2 in
    let (w4, m4) =
      walk_side center h k bound 0 _ _ _ _ (IsSide-4 k) _ dst _ _
        (Moved-same m3 (omega arith) (omega arith)) w3 in
    let ((cells, e, l, a), m5) =
      walk_side center h k bound 1 _ _ _ _ (IsSide-5 k) _ dst _ _
        (Moved-same m4 (omega arith) (omega arith)) w4 in
    (cells, e, omega (arith, l), a)

-- The cells of `rounds` rings from the one of k on, one ring after the other: 6 k of them at distance
-- k, then 6 (k + 1) at distance k + 1, and so on.
abbrev pub Concentric : Coord → ℕ → ℕ → List Coord → Type 0
Concentric center zero k cells = cells ≡ []
Concentric center (suc rounds) k cells =
    (first : List Coord) × (rest : List Coord) × (cells ≡ first ++ rest)
    × (length first ≡ 6 * k)
    × AllAt center (pos k) first
    × Concentric center rounds (k + 1) rest

rings-Concentric :
    (rounds k : ℕ) (center : Coord) (dst : List Coord)
    → IsCenter center
    → k + rounds ≤ 2 ^ 58 + 1
    → 0 < k
    → (cells : List Coord) × (rings rounds k center dst ≡ dst ++ cells)
      × (length cells + 3 * rounds ≡ 6 * (k * rounds) + 3 * (rounds * rounds))
      × Concentric center rounds k cells
unfolding rings
rings-Concentric zero k center dst h bound p = ([], sym (append-nil dst), omega arith, refl)
rings-Concentric (suc rounds) k center dst h bound p =
    let (first, e, l, a) = ring_into-Walked dst center k h (omega arith) p in
    let (rest, e', l', c) =
      rings-Concentric rounds (k + 1) center (ring_into dst center (pos k)) h (omega arith)
        (omega arith) in
    (
      first ++ rest,
      e' ∙ ap (λ o. o ++ rest) e ∙ append_assoc dst first rest,
      omega (arith, l, l', length-append first rest),
      (first, rest, refl, l, a, c),
    )

-- For a center with |Q| and |R| at most 2 ^ 58 and a radius of at most 2 ^ 58, WalkRings appends the
-- center and then 3 maxR² + 3 maxR cells: 6 at distance 1, then 12 at distance 2, up to 6 maxR at
-- distance maxR.
pub walk_rings-Concentric :
    (dst : List Coord) (center : Coord) (max_r : ℕ)
    → IsCenter center
    → max_r ≤ 2 ^ 58
    → (cells : List Coord) × (walk_rings dst center (pos max_r) ≡ dst ++ center ∷ cells)
      × (length cells ≡ 3 * (max_r * max_r) + 3 * max_r)
      × Concentric center max_r 1 cells
unfolding walk_rings
walk_rings-Concentric dst center max_r h bound =
    let (cells, e, l, c) =
      rings-Concentric max_r 1 center (dst ++ center ∷ []) h (omega arith) (omega arith) in
    (cells, e ∙ append_assoc dst (center ∷ []) cells, omega (arith, l), c)
