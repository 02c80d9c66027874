-- ===== src/Lattice/Ring/Moves.antt =====
-- The moves along one side of a ring, in exact arithmetic, and their distance from the center.
use hexxladb.Base.{ℕ, suc, ◌+◌, ◌-◌, ◌^◌, ◌≤◌, ◌≡◌, ap, ◌∙◌, arith, max, List}
use hexxladb.Base.Int.{ℤ, pos, pos_part, neg_part, ◌+ℤ◌, ◌-ℤ◌, +ℤ_parts}
use hexxladb.Lattice.Int64.{int64_laws}
use hexxladb.Lattice.Coord.{Coord, Cube, distance}
use hexxladb.Lattice.Coord.Metric.{
  IsSmall, magnitude, magnitude_lem, hex_distance_lem, distance_lem, one_sided,
}
use hexxladb.Lattice.Ring.{direction, cube_neighbor, cube_to_coord, side}
use hexxladb.Lattice.Ring.Side.{Walked, side-Walked}

-- The coordinate lies in the box of half-width 2 ^ 58.
abbrev pub IsCenter : Coord → Type 0
IsCenter c =
    (pos_part c.q ≤ 2 ^ 58)
    × (neg_part c.q ≤ 2 ^ 58)
    × (pos_part c.r ≤ 2 ^ 58)
    × (neg_part c.r ≤ 2 ^ 58)

-- The cell is the center moved by qp - qn and rp - rn, where the moves are at most 2 ^ 58.
pub record Moved (center : Coord) (qp qn rp rn : ℕ) (c : Cube) : Type 0 where
  pub q_move : pos_part c.q + neg_part center.q + qn ≡ neg_part c.q + pos_part center.q + qp
  pub r_move : pos_part c.r + neg_part center.r + rn ≡ neg_part c.r + pos_part center.r + rp

magnitude_move :
    (a b : ℤ) (p n : ℕ)
    → pos_part b + neg_part a + n ≡ neg_part b + pos_part a + p
    → magnitude (a -ℤ b) ≡ p - n + (n - p)
magnitude_move a b p n e = omega (arith, magnitude_lem a b)

module _ (center : Coord) (h : IsCenter center) (k : ℕ) (bound : k ≤ 2 ^ 58) where
  pub Moved-distance :
      (qp qn rp rn : ℕ) (c : Cube)
      → qp ≤ k
      → qn ≤ k
      → rp ≤ k
      → rn ≤ k
      → max
          (max (qp - qn + (qn - qp)) (rp - rn + (rn - rp)))
          (qp + rp - (qn + rn) + (qn + rn - (qp + rp)))
        ≡ k
      → Moved center qp qn rp rn c
      → distance center (cube_to_coord c) ≡ pos k
  Moved-distance qp qn rp rn c h1 h2 h3 h4 e m =
      let other = cube_to_coord c in
      let small : IsSmall other = omega (arith, m.q_move, m.r_move, one_sided c.q, one_sided c.r) in
      let u = center.q +ℤ center.r in
      let v = c.q +ℤ c.r in
      let sum : pos_part v + neg_part u + (qn + rn) ≡ neg_part v + pos_part u + (qp + rp) =
        omega (arith, +ℤ_parts center.q center.r, +ℤ_parts c.q c.r, m.q_move, m.r_move) in
      distance_lem center other (omega arith) small
      ∙ ap pos (
          hex_distance_lem center other
          ∙ rw
              (
                magnitude_move center.q c.q qp qn m.q_move,
                magnitude_move center.r c.r rp rn m.r_move,
                magnitude_move u v (qp + rp) (qn + rn) sum,
              )
              e)

-- One side of the ring of k: with n of its k rounds left, `cur` is the center moved by qp n - qn n and
-- rp n - rn n.
pub record IsSide (k dir : ℕ) (qp qn rp rn : ℕ → ℕ) : Type 0 where
  pub unit :
      (pos_part (direction dir).q ≤ 1)
      × (neg_part (direction dir).q ≤ 1)
      × (pos_part (direction dir).r ≤ 1)
      × (neg_part (direction dir).r ≤ 1)
  pub in_box : (n : ℕ) → n ≤ k → (qp n ≤ k) × (qn n ≤ k) × (rp n ≤ k) × (rn n ≤ k)
  pub on_ring :
      (n : ℕ)
      → n ≤ k
      → max
          (max (qp n - qn n + (qn n - qp n)) (rp n - rn n + (rn n - rp n)))
          (qp n + rp n - (qn n + rn n) + (qn n + rn n - (qp n + rp n)))
        ≡ k
  pub next :
      (n : ℕ)
      → suc n ≤ k
      → (qp n + qn (suc n) + neg_part (direction dir).q
          ≡ qp (suc n) + pos_part (direction dir).q + qn n)
        × (rp n + rn (suc n) + neg_part (direction dir).r
            ≡ rp (suc n) + pos_part (direction dir).r + rn n)

module _ (center : Coord) (h : IsCenter center) (k : ℕ) (bound : k ≤ 2 ^ 58) (dir : ℕ)
    (qp qn rp rn : ℕ → ℕ) (is_side : IsSide k dir qp qn rp rn) where
  abbrev At : ℕ → Cube → Type 0
  At n c = (n ≤ k) × Moved center (qp n) (qn n) (rp n) (rn n) c

  At-step : (n : ℕ) (c : Cube) → At (suc n) c → At n (cube_neighbor c dir)
  unfolding cube_neighbor
  At-step n c (le, m) =
      let (uq, uq', ur, ur') = is_side.unit in
      let (bq, bq', br, br') = is_side.in_box (suc n) le in
      let (eq, er) = is_side.next n le in
      (
        omega arith,
        record {
          q_move = omega (int64_laws, m.q_move, one_sided c.q);
          r_move = omega (int64_laws, m.r_move, one_sided c.r);
        },
      )

  At-distance : (n : ℕ) (c : Cube) → At (suc n) c → distance center (cube_to_coord c) ≡ pos k
  At-distance n c (le, m) =
      let (bq, bq', br, br') = is_side.in_box (suc n) le in
      Moved-distance center h k bound (qp (suc n)) (qn (suc n)) (rp (suc n)) (rn (suc n)) c bq bq'
        br br' (is_side.on_ring (suc n) le) m

  pub walk_side :
      (m : ℕ) (dst out : List Coord) (cur : Cube)
      → Moved center (qp k) (qn k) (rp k) (rn k) cur
      → Walked center (pos k) dst m out
      → Walked center (pos k) dst (m + k) (side k dir out cur).0
        × Moved center (qp 0) (qn 0) (rp 0) (rn 0) (side k dir out cur).1
  walk_side m dst out cur p w =
      let (walked, (le, last)) =
        side-Walked center (pos k) dir At At-step At-distance k m dst out cur (omega arith, p) w in
      (walked, last)
