-- ===== src/Lattice/Coord.antt =====
-- internal/lattice/coord.go and neighbors.go: axial and cube coordinates, distance, neighbours.
pub mod Metric
use hexxladb.Base.{ℕ, zero, suc, ◌+◌, ◌-◌, ◌/◌, List, [], ◌∷◌, if◌then◌else◌}
use hexxladb.Base.Int.{ℤ, pos, negsuc, ltb_ℤ}
use hexxladb.Lattice.Int64.{add64, sub64, neg64}

-- Coord
pub record Coord : Type 0 where
  pub q : ℤ
  pub r : ℤ

-- Cube
pub record Cube : Type 0 where
  pub q : ℤ
  pub r : ℤ
  pub s : ℤ

-- Coord.Cube
unfoldable pub to_cube : Coord → Cube
to_cube c = record { q = c.q; r = c.r; s = sub64 (neg64 c.q) c.r }

-- abs
unfoldable pub abs64 : ℤ → ℤ
abs64 x = if ltb_ℤ x (pos 0) then neg64 x else x

-- x / 2, which rounds toward zero.
unfoldable pub half64 : ℤ → ℤ
half64 (pos n) = pos (n / 2)
half64 (negsuc zero) = pos 0
half64 (negsuc (suc n)) = negsuc ((n + 2) / 2 - 1)

-- Coord.Distance
unfoldable pub distance : Coord → Coord → ℤ
distance c other =
    let dq = sub64 c.q other.q in
    let dr = sub64 c.r other.r in
    let ds = sub64 (add64 c.q c.r) (add64 other.q other.r) in
    half64 (add64 (add64 (abs64 dq) (abs64 dr)) (abs64 ds))

-- Coord.Neighbors
unfoldable pub neighbors : Coord → List Coord
neighbors c =
    record { q = add64 c.q (pos 1); r = c.r }
    ∷ record { q = add64 c.q (pos 1); r = sub64 c.r (pos 1) }
    ∷ record { q = c.q; r = sub64 c.r (pos 1) }
    ∷ record { q = sub64 c.q (pos 1); r = c.r }
    ∷ record { q = sub64 c.q (pos 1); r = add64 c.r (pos 1) }
    ∷ record { q = c.q; r = add64 c.r (pos 1) }
    ∷ []
