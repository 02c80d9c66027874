-- ===== src/Lattice/Ring/Packed.antt =====
-- internal/lattice/walk.go: the walk over the rings with the keys of the cells that have one.
use hexxladb.Base.{
  ℕ, zero, suc, ◌+◌, ◌≡◌, refl, sym, ap, ◌∙◌, List, [], ◌∷◌, ◌++◌, append-nil, append_assoc, Option,
  none, some, Option-cases, inl, inr, arith, Bool, true, ◌&&◌, ◌*◌, ◌^◌, ◌%◌, ◌≤◌, ◌<◌, ltb, leb,
  if◌then◌else◌,
}
use hexxladb.Base.Int.{ℤ, pos, negsuc}
use hexxladb.Lattice.Coord.{Coord}
use hexxladb.Lattice.PackedCoord.{PackedCoord}
use hexxladb.Lattice.Packed.{pack, unpack}
use hexxladb.Lattice.Packed.RoundTrip.{unpack-pack}
use hexxladb.Lattice.Ring.{ring_into, rings, walk_rings}
use hexxladb.Lattice.Ring.Append.{rings-append}

-- CoordPacked
pub record CoordPacked : Type 0 where
  pub coord : Coord
  pub packed : PackedCoord

-- A cell with its key, if it has one.
abbrev pub add_packed : List CoordPacked → Coord → Option PackedCoord → List CoordPacked
add_packed out c none = out
add_packed out c (some p) = out ++ record { coord = c; packed = p } ∷ []

-- The inner loop of WalkRingsCoordPacked over the cells of a ring.
unfoldable pub pack_cells : List CoordPacked → List Coord → List CoordPacked
pack_cells out [] = out
pack_cells out (c ∷ cs) = pack_cells (add_packed out c (pack c)) cs

-- Its outer loop over the rings k, k + 1 and so on.
unfoldable pub pack_rings : ℕ → ℕ → Coord → List CoordPacked → List CoordPacked
unfolding pack_cells
pack_rings zero k center out = out
pack_rings (suc rounds) k center out =
    pack_rings rounds (k + 1) center (pack_cells out (ring_into [] center (pos k)))

-- Whether make returns for a capacity, given as the 64 bits of an int: it panics on a negative capacity
-- and on more than max_alloc bytes, which is a constant of the runtime.
abbrev pub can_make : ℕ → ℕ → ℕ → Bool
can_make max_alloc element_size capacity =
    ltb capacity (2 ^ 63) && leb (capacity * element_size) max_alloc

-- total, in the arithmetic of int
abbrev pub ring_total : ℕ → ℕ
ring_total max_r = (3 * max_r * max_r + 3 * max_r + 1) % 2 ^ 64

-- The capacity of buf, likewise.
abbrev pub buffer_total : ℕ → ℕ
buffer_total max_r = (6 * max_r + 1) % 2 ^ 64

-- WalkRingsCoordPacked: `none` where make panics. A pair has 32 bytes and a Coord 16.
unfoldable pub walk_rings_coord_packed : ℕ → Coord → ℤ → Option (List CoordPacked)
unfolding pack_rings
walk_rings_coord_packed max_alloc center (negsuc n) = some []
walk_rings_coord_packed max_alloc center (pos max_r) =
    if can_make max_alloc 32 (ring_total max_r) && can_make max_alloc 16 (buffer_total max_r)
    then some (pack_rings (max_r + 1) 0 center [])
    else none

pack_cells-append :
    (out : List CoordPacked) (cs ds : List Coord)
    → pack_cells out (cs ++ ds) ≡ pack_cells (pack_cells out cs) ds
unfolding pack_cells
pack_cells-append out [] ds = refl
pack_cells-append out (c ∷ cs) ds = pack_cells-append (add_packed out c (pack c)) cs ds

pack_rings_lem :
    (rounds k : ℕ) (center : Coord) (out : List CoordPacked)
    → pack_rings rounds k center out ≡ pack_cells out (rings rounds k center [])
unfolding pack_rings rings
pack_rings_lem zero k center out = unfold pack_cells in refl
pack_rings_lem (suc rounds) k center out =
    let cells = ring_into [] center (pos k) in
    pack_rings_lem rounds (k + 1) center (pack_cells out cells)
    ∙ sym (pack_cells-append out cells (rings rounds (k + 1) center []))
    ∙ ap (pack_cells out) (
        sym (rings-append rounds (k + 1) center cells [])
        ∙ ap (rings rounds (k + 1) center) (append-nil cells))

-- Every pair is a cell and the key from which Unpack reads it back.
abbrev pub AllReadBack : List CoordPacked → Type 0
AllReadBack [] = Unit
AllReadBack (x ∷ xs) = (unpack x.packed ≡ some x.coord) × AllReadBack xs

AllReadBack-append :
    (xs : List CoordPacked) (c : Coord) (p : PackedCoord)
    → AllReadBack xs
    → pack c ≡ some p
    → AllReadBack (xs ++ record { coord = c; packed = p } ∷ [])
AllReadBack-append [] c p h e = (unpack-pack c e, tt)
AllReadBack-append (x ∷ xs) c p (h, hs) e = (h, AllReadBack-append xs c p hs e)

add_packed-AllReadBack :
    (out : List CoordPacked) (c : Coord) → AllReadBack out → AllReadBack (add_packed out c (pack c))
add_packed-AllReadBack out c h = elim (Option-cases (pack c)) [
  | inl e ↦ rw e h
  | inr (p, e) ↦ rw e (AllReadBack-append out c p h e)
]

pack_cells-AllReadBack :
    (out : List CoordPacked) (cs : List Coord) → AllReadBack out → AllReadBack (pack_cells out cs)
unfolding pack_cells
pack_cells-AllReadBack out [] h = h
pack_cells-AllReadBack out (c ∷ cs) h =
    pack_cells-AllReadBack (add_packed out c (pack c)) cs (add_packed-AllReadBack out c h)

-- The cells of the pairs.
abbrev pub coords : List CoordPacked → List Coord
coords [] = []
coords (x ∷ xs) = x.coord ∷ coords xs

coords-append : (xs ys : List CoordPacked) → coords (xs ++ ys) ≡ coords xs ++ coords ys
coords-append [] ys = refl
coords-append (x ∷ xs) ys = ap (λ cs. x.coord ∷ cs) (coords-append xs ys)

-- A cell in front of others, if Pack gives it a key.
abbrev pub if_packed : Coord → Option PackedCoord → List Coord → List Coord
if_packed c none others = others
if_packed c (some p) others = c ∷ others

-- The cells to which Pack gives a key, in their order.
unfoldable pub packable : List Coord → List Coord
packable [] = []
packable (c ∷ cs) = if_packed c (pack c) (packable cs)

coords-add_packed :
    (out : List CoordPacked) (c : Coord) (o : Option PackedCoord) (others : List Coord)
    → coords (add_packed out c o) ++ others ≡ coords out ++ if_packed c o others
coords-add_packed out c none others = refl
coords-add_packed out c (some p) others =
    ap (λ cs. cs ++ others) (coords-append out (record { coord = c; packed = p } ∷ []))
    ∙ append_assoc (coords out) (c ∷ []) others

coords-pack_cells :
    (out : List CoordPacked) (cs : List Coord)
    → coords (pack_cells out cs) ≡ coords out ++ packable cs
unfolding pack_cells packable
coords-pack_cells out [] = sym (append-nil (coords out))
coords-pack_cells out (c ∷ cs) =
    coords-pack_cells (add_packed out c (pack c)) cs
    ∙ coords-add_packed out c (pack c) (packable cs)

square : (n : ℕ) → n ≤ n * n
square zero = omega arith
square (suc n) = grind arith

module _ (max_alloc : ℕ) (center : Coord) (max_r : ℕ)
    (room : (3 * max_r * max_r + 3 * max_r + 1) * 32 ≤ max_alloc) (limit : max_alloc < 2 ^ 63) where
  -- The walk packs the cells of WalkRings.
  pub walk_rings_coord_packed-some :
      walk_rings_coord_packed max_alloc center (pos max_r)
      ≡ some (pack_cells [] (walk_rings [] center (pos max_r)))
  unfolding walk_rings_coord_packed walk_rings
  walk_rings_coord_packed-some =
      let sq = square max_r in
      let product : 3 * max_r * max_r ≡ 3 * (max_r * max_r) = grind arith in
      let total : ring_total max_r ≡ 3 * max_r * max_r + 3 * max_r + 1 =
        omega (arith, room, limit) in
      let buffer : buffer_total max_r ≡ 6 * max_r + 1 = omega (arith, room, limit, sq, product) in
      let made : can_make max_alloc 32 (ring_total max_r) ≡ true =
        ap (can_make max_alloc 32) total ∙ ground (arith, room, limit) in
      let made_buffer : can_make max_alloc 16 (buffer_total max_r) ≡ true =
        ap (can_make max_alloc 16) buffer ∙ ground (arith, room, limit, sq, product) in
      rw (made, made_buffer)
        (ap some (pack_rings_lem (max_r + 1) 0 center [] ∙ ap (pack_cells []) from_one))
    where
      from_one : rings (max_r + 1) 0 center [] ≡ rings max_r 1 center (center ∷ [])
      from_one =
          let rounds : max_r + 1 ≡ suc max_r = omega arith in
          rw rounds (unfold rings ring_into in refl)

  -- For every radius that is not negative and for which the runtime can allocate total pairs,
  -- WalkRingsCoordPacked returns pairs whose cells are the cells of WalkRings to which Pack gives a key,
  -- each of them and in their order, and from the key of each pair Unpack reads back its cell.
  pub walk_rings_coord_packed_lem :
      (out : List CoordPacked) × (walk_rings_coord_packed max_alloc center (pos max_r) ≡ some out)
      × (coords out ≡ packable (walk_rings [] center (pos max_r)))
      × AllReadBack out
  walk_rings_coord_packed_lem =
      let cells = walk_rings [] center (pos max_r) in
      (
        pack_cells [] cells,
        walk_rings_coord_packed-some,
        coords-pack_cells [] cells,
        pack_cells-AllReadBack [] cells tt,
      )
