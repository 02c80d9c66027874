-- ===== src/Lattice/Ring/Append.antt =====
-- RingInto appends the cells of Ring.
use hexxladb.Base.{
  ℕ, zero, suc, ◌+◌, ◌%◌, ◌≡◌, refl, sym, ap, ◌∙◌, List, [], ◌∷◌, ◌++◌, append_assoc, append-nil,
}
use hexxladb.Base.Int.{ℤ, pos, negsuc}
use hexxladb.Lattice.Coord.{Coord, Cube, to_cube}
use hexxladb.Lattice.Ring.{
  cube_neighbor, cube_to_coord, cube_add, cube_scale, direction, side, sides, ring_into, ring,
  rings,
}

side-append :
    (n dir : ℕ) (dst out : List Coord) (cur : Cube)
    → side n dir (dst ++ out) cur ≡ (dst ++ (side n dir out cur).0, (side n dir out cur).1)
unfolding side
side-append zero dir dst out cur = refl
side-append (suc n) dir dst out cur =
    rw (append_assoc dst out (cube_to_coord cur ∷ []))
      (side-append n dir dst (out ++ cube_to_coord cur ∷ []) (cube_neighbor cur dir))

sides-append :
    (n i k : ℕ) (dst out : List Coord) (cur : Cube)
    → sides n i k (dst ++ out, cur) ≡ dst ++ sides n i k (out, cur)
unfolding sides
sides-append zero i k dst out cur = refl
sides-append (suc n) i k dst out cur =
    rw (side-append k ((i + 2) % 6) dst out cur) (
      sides-append n (i + 1) k dst (side k ((i + 2) % 6) out cur).0
        (side k ((i + 2) % 6) out cur).1)

-- For every slice, center and radius, negative ones too, RingInto appends what Ring returns.
pub ring_into-ring :
    (dst : List Coord) (center : Coord) (k : ℤ) → ring_into dst center k ≡ dst ++ ring center k
unfolding ring_into ring
ring_into-ring dst center (negsuc n) = sym (append-nil dst)
ring_into-ring dst center (pos zero) = refl
ring_into-ring dst center (pos (suc n)) =
    let cur = cube_add (to_cube center) (cube_scale (direction 0) (pos (suc n))) in
    ap (λ o. sides 6 0 (suc n) (o, cur)) (sym (append-nil dst))
    ∙ sides-append 6 0 (suc n) dst [] cur

pub rings-append :
    (rounds k : ℕ) (center : Coord) (dst out : List Coord)
    → rings rounds k center (dst ++ out) ≡ dst ++ rings rounds k center out
unfolding rings
rings-append zero k center dst out = refl
rings-append (suc rounds) k center dst out =
    rw (ring_into-ring (dst ++ out) center (pos k), append_assoc dst out (ring center (pos k)))
      (rings-append rounds (k + 1) center dst (out ++ ring center (pos k))
        ∙ rw (ring_into-ring out center (pos k)))
