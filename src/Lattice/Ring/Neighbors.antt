-- ===== src/Lattice/Ring/Neighbors.antt =====
-- internal/lattice/neighbors.go: the six neighbours are at distance 1.
use hexxladb.Base.{ℕ, ◌+◌, ◌-◌, ◌^◌, ◌≤◌, ◌≡◌, max, refl, arith}
use hexxladb.Base.Int.{ℤ, pos, pos_part, neg_part}
use hexxladb.Lattice.Int64.{add64, sub64, int64_laws}
use hexxladb.Lattice.Coord.{Coord, distance, neighbors}
use hexxladb.Lattice.Coord.Metric.{one_sided}
use hexxladb.Lattice.Ring.Side.{AllAt}
use hexxladb.Lattice.Ring.Moves.{IsCenter, Moved-distance}

-- One step away, in exact arithmetic.
step-distance :
    (c : Coord) (q r : ℤ) (qp qn rp rn : ℕ)
    → IsCenter c
    → qp ≤ 1
    → qn ≤ 1
    → rp ≤ 1
    → rn ≤ 1
    → max
        (max (qp - qn + (qn - qp)) (rp - rn + (rn - rp)))
        (qp + rp - (qn + rn) + (qn + rn - (qp + rp)))
      ≡ 1
    → pos_part q + neg_part c.q + qn ≡ neg_part q + pos_part c.q + qp
    → pos_part r + neg_part c.r + rn ≡ neg_part r + pos_part c.r + rp
    → distance c (record { q = q; r = r }) ≡ pos 1
step-distance c q r qp qn rp rn h h1 h2 h3 h4 e eq er =
    Moved-distance c h 1 (omega arith) qp qn rp rn (record { q = q; r = r; s = pos 0 }) h1 h2 h3 h4
      e (record { q_move = eq; r_move = er })

up_parts :
    (x : ℤ)
    → pos_part x ≤ 2 ^ 58
    → neg_part x ≤ 2 ^ 58
    → pos_part (add64 x (pos 1)) + neg_part x + 0 ≡ neg_part (add64 x (pos 1)) + pos_part x + 1
up_parts x h k = omega (int64_laws, one_sided x)

down_parts :
    (x : ℤ)
    → pos_part x ≤ 2 ^ 58
    → neg_part x ≤ 2 ^ 58
    → pos_part (sub64 x (pos 1)) + neg_part x + 1 ≡ neg_part (sub64 x (pos 1)) + pos_part x + 0
down_parts x h k = omega (int64_laws, one_sided x)

stay_parts : (x : ℤ) → pos_part x + neg_part x + 0 ≡ neg_part x + pos_part x + 0
stay_parts x = omega arith

-- For a coordinate with |Q| and |R| at most 2 ^ 58, every cell that Neighbors returns is at distance 1.
pub neighbors-AllAt : (c : Coord) → IsCenter c → AllAt c (pos 1) (neighbors c)
unfolding neighbors
neighbors-AllAt c (hq, hq', hr, hr') =
    let h : IsCenter c = (hq, hq', hr, hr') in
    let q_up = up_parts c.q hq hq' in
    let q_down = down_parts c.q hq hq' in
    let r_up = up_parts c.r hr hr' in
    let r_down = down_parts c.r hr hr' in
    let z : 0 ≤ 1 = omega arith in
    let o : 1 ≤ 1 = omega arith in
    (
      step-distance c _ _ 1 0 0 0 h o z z z refl q_up (stay_parts c.r),
      (
        step-distance c _ _ 1 0 0 1 h o z z o refl q_up r_down,
        (
          step-distance c _ _ 0 0 0 1 h z z z o refl (stay_parts c.q) r_down,
          (
            step-distance c _ _ 0 1 0 0 h z o z z refl q_down (stay_parts c.r),
            (
              step-distance c _ _ 0 1 1 0 h z o o z refl q_down r_up,
              (step-distance c _ _ 0 0 1 0 h z z o z refl (stay_parts c.q) r_up, tt),
            ),
          ),
        ),
      ),
    )
