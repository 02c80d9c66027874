-- ===== src/Lattice/Ring/Side.antt =====
-- One side of a ring: what each of its steps keeps holds of every cell that it adds.
use hexxladb.Base.{
  ℕ, zero, suc, ◌+◌, ◌≡◌, ◌∙◌, ap, arith, List, [], ◌∷◌, ◌++◌, append_assoc, length, length-append,
}
use hexxladb.Base.Int.{ℤ}
use hexxladb.Lattice.Coord.{Coord, Cube, distance}
use hexxladb.Lattice.Ring.{cube_neighbor, cube_to_coord, side}

-- All the cells have this distance from the center.
abbrev pub AllAt : Coord → ℤ → List Coord → Type 0
AllAt center k [] = Unit
AllAt center k (c ∷ cs) = (distance center c ≡ k) × AllAt center k cs

pub AllAt-append :
    (center : Coord) (k : ℤ) (cs ds : List Coord)
    → AllAt center k cs
    → AllAt center k ds
    → AllAt center k (cs ++ ds)
AllAt-append center k [] ds h j = j
AllAt-append center k (c ∷ cs) ds (h, hs) j = (h, AllAt-append center k cs ds hs j)

-- The slice dst with m cells of the ring behind it.
abbrev pub Walked : Coord → ℤ → List Coord → ℕ → List Coord → Type 0
Walked center k dst m out =
    (cells : List Coord) × (out ≡ dst ++ cells) × (length cells ≡ m) × AllAt center k cells

pub Walked-append :
    (center : Coord) (k : ℤ) (dst : List Coord) (m : ℕ) (out : List Coord) (c : Coord)
    → Walked center k dst m out
    → distance center c ≡ k
    → Walked center k dst (m + 1) (out ++ c ∷ [])
Walked-append center k dst m out c (cells, e, l, a) h = (
  cells ++ c ∷ [],
  ap (λ o. o ++ c ∷ []) e ∙ append_assoc dst cells (c ∷ []),
  omega (arith, length-append cells (c ∷ []), l),
  AllAt-append center k cells (c ∷ []) a (h, tt),
)

-- P holds of `cur` with the rounds that are left, and what it holds of is at distance k.
module _ (center : Coord) (k : ℤ) (dir : ℕ) (P : ℕ → Cube → Type 0)
    (step : (n : ℕ) (c : Cube) → P (suc n) c → P n (cube_neighbor c dir))
    (at : (n : ℕ) (c : Cube) → P (suc n) c → distance center (cube_to_coord c) ≡ k) where
  pub side-Walked :
      (n m : ℕ) (dst out : List Coord) (cur : Cube)
      → P n cur
      → Walked center k dst m out
      → Walked center k dst (m + n) (side n dir out cur).0 × P 0 (side n dir out cur).1
  unfolding side
  side-Walked zero m dst out cur p (cells, e, l, a) = ((cells, e, omega (arith, l), a), p)
  side-Walked (suc n) m dst out cur p w =
      let next : Walked center k dst (m + 1) (out ++ cube_to_coord cur ∷ []) =
        Walked-append center k dst m out (cube_to_coord cur) w (at n cur p) in
      let ((cells, e, l, a), q) =
        side-Walked n (m + 1) dst (out ++ cube_to_coord cur ∷ []) (cube_neighbor cur dir)
          (step n cur p) next in
      ((cells, e, omega (arith, l), a), q)
