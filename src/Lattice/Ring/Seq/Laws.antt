-- ===== src/Lattice/Ring/Seq/Laws.antt =====
-- An iterator over rings calls yield on the cells of its slice function, in order, until the first
-- answer of false.
use hexxladb.Base.{
  ◌*◌, ◌^◌, ◌≤◌, ◌<◌, ℕ, zero, suc, ◌+◌, ◌-◌, ◌%◌, ◌≡◌, refl, sym, ap, ◌∙◌, max, List, [], ◌∷◌,
  ◌++◌, Option, none, some, Bool-cases, Bool, true, false, inl, inr, ◌||◌,
}
use mathlib.Core.Path.{fun_ext}
use hexxladb.Base.Int.{ℤ, pos, negsuc, pos_part, ltb_ℤ}
use hexxladb.Lattice.Coord.{Coord, Cube, to_cube}
use hexxladb.Lattice.Packed.{pack}
use hexxladb.Lattice.Ring.{
  cube_neighbor, cube_to_coord, cube_add, cube_scale, direction, side, sides, ring_into, ring,
  rings, walk_rings, spiral_range,
}
use hexxladb.Lattice.Ring.Append.{ring_into-ring}
use hexxladb.Lattice.Ring.Packed.{
  CoordPacked, add_packed, pack_cells, walk_rings_coord_packed, walk_rings_coord_packed-some,
}
use hexxladb.Lattice.Ring.Seq.{
  go_on, side_seq, sides_seq, ring_seq, rings_seq, walk_rings_seq, spiral_range_seq,
  yield_if_packed, yield_packed, walk_rings_packed_seq,
}

-- A range loop over a slice that ends at the first answer of false.
unfoldable pub for_each : {A S : Type 0} → (A → S → Bool × S) → List A → S → Bool × S
for_each yield [] s = (true, s)
for_each yield (c ∷ cs) s = go_on (for_each yield cs) (yield c s)

go_on_assoc :
    {S : Type 0} (f g : S → Bool × S) (o : Bool × S)
    → go_on g (go_on f o) ≡ go_on (λ s. go_on g (f s)) o
go_on_assoc f g (true, s) = refl
go_on_assoc f g (false, s) = refl

go_on_done : {S : Type 0} (o : Bool × S) → go_on (λ s. (true, s)) o ≡ o
go_on_done (true, s) = refl
go_on_done (false, s) = refl

for_each-append :
    {A S : Type 0} (yield : A → S → Bool × S) (xs ys : List A) (s : S)
    → for_each yield (xs ++ ys) s ≡ go_on (for_each yield ys) (for_each yield xs s)
unfolding for_each
for_each-append yield [] ys s = refl
for_each-append yield (x ∷ xs) ys s =
    ap (λ f. go_on f (yield x s)) (fun_ext (λ t. for_each-append yield xs ys t))
    ∙ sym (go_on_assoc (for_each yield xs) (for_each yield ys) (yield x s))

for_each-snoc :
    {A S : Type 0} (yield : A → S → Bool × S) (xs : List A) (x : A) (s : S)
    → for_each yield (xs ++ x ∷ []) s ≡ go_on (yield x) (for_each yield xs s)
unfolding for_each
for_each-snoc yield xs x s =
    for_each-append yield xs (x ∷ []) s
    ∙ ap (λ f. go_on f (for_each yield xs s)) (fun_ext (λ t. go_on_done (yield x t)))

module _ {S : Type 0} (yield : Coord → S → Bool × S) where
  side_seq_lem :
      (n dir : ℕ) (next : Cube → S → Bool × S) (out : List Coord) (cur : Cube) (s : S)
      → go_on (side_seq yield n dir next cur) (for_each yield out s)
        ≡ go_on (next (side n dir out cur).1) (for_each yield (side n dir out cur).0 s)
  unfolding side_seq side
  side_seq_lem zero dir next out cur s = refl
  side_seq_lem (suc n) dir next out cur s =
      let c = cube_to_coord cur in
      let cur' = cube_neighbor cur dir in
      sym (go_on_assoc (yield c) (side_seq yield n dir next cur') (for_each yield out s))
      ∙ ap (go_on (side_seq yield n dir next cur')) (sym (for_each-snoc yield out c s))
      ∙ side_seq_lem n dir next (out ++ c ∷ []) cur' s

  sides_seq_lem :
      (n i k : ℕ) (out : List Coord) (cur : Cube) (s : S)
      → go_on (sides_seq yield n i k cur) (for_each yield out s)
        ≡ for_each yield (sides n i k (out, cur)) s
  unfolding sides_seq sides
  sides_seq_lem zero i k out cur s = go_on_done (for_each yield out s)
  sides_seq_lem (suc n) i k out cur s =
      let after = side k ((i + 2) % 6) out cur in
      side_seq_lem k ((i + 2) % 6) (sides_seq yield n (i + 1) k) out cur s
      ∙ sides_seq_lem n (i + 1) k after.0 after.1 s

  -- For every center and radius, RingSeq calls yield on the cells of Ring.
  pub ring_seq-ring :
      (center : Coord) (k : ℤ) (s : S)
      → ring_seq yield center k s ≡ for_each yield (ring center k) s
  unfolding ring_seq ring ring_into for_each
  ring_seq-ring center (negsuc n) s = refl
  ring_seq-ring center (pos zero) s = sym (go_on_done (yield center s))
  ring_seq-ring center (pos (suc n)) s =
      let cur = cube_add (to_cube center) (cube_scale (direction 0) (pos (suc n))) in
      sides_seq_lem 6 0 (suc n) [] cur s

  rings_seq_lem :
      (rounds k : ℕ) (center : Coord) (dst : List Coord) (s : S)
      → go_on (rings_seq yield rounds k center) (for_each yield dst s)
        ≡ for_each yield (rings rounds k center dst) s
  unfolding rings_seq rings
  rings_seq_lem zero k center dst s = go_on_done (for_each yield dst s)
  rings_seq_lem (suc rounds) k center dst s =
      let next = rings_seq yield rounds (k + 1) center in
      sym (go_on_assoc (ring_seq yield center (pos k)) next (for_each yield dst s))
      ∙ ap (go_on next) (
          ap (λ f. go_on f (for_each yield dst s)) (fun_ext (λ t. ring_seq-ring center (pos k) t))
          ∙ sym (for_each-append yield dst (ring center (pos k)) s)
          ∙ ap (λ o. for_each yield o s) (sym (ring_into-ring dst center (pos k))))
      ∙ rings_seq_lem rounds (k + 1) center (ring_into dst center (pos k)) s

  -- For every center and radius, WalkRingsSeq calls yield on the cells that WalkRings appends to an
  -- empty slice, in their order, until the first answer of false.
  pub walk_rings_seq-walk_rings :
      (center : Coord) (max_r : ℤ) (s : S)
      → walk_rings_seq yield center max_r s ≡ for_each yield (walk_rings [] center max_r) s
  unfolding walk_rings_seq walk_rings for_each
  walk_rings_seq-walk_rings center (negsuc n) s = refl
  walk_rings_seq-walk_rings center (pos max_r) s =
      ap (go_on (rings_seq yield max_r 1 center)) (sym (go_on_done (yield center s)))
      ∙ rings_seq_lem max_r 1 center (center ∷ []) s

  -- For every center and radii, SpiralRangeSeq calls yield on the cells that SpiralRange appends to an
  -- empty slice, in their order, until the first answer of false.
  pub spiral_range_seq-spiral_range :
      (center : Coord) (min_r max_r : ℤ) (s : S)
      → spiral_range_seq yield center min_r max_r s
        ≡ for_each yield (spiral_range [] center min_r max_r) s
  unfolding spiral_range_seq spiral_range for_each
  spiral_range_seq-spiral_range center min_r max_r s =
      let start = max (pos_part min_r) 1 in
      let rounds = pos_part max_r + 1 - start in
      elim (Bool-cases (ltb_ℤ max_r (pos 0) || ltb_ℤ max_r min_r)) [
        | inl empty ↦ rw empty
        | inr some_rings ↦ elim (Bool-cases (ltb_ℤ (pos 0) min_r)) [
          | inl outside ↦ rw (some_rings, outside) (rings_seq_lem rounds start center [] s)
          | inr inside ↦
              rw (some_rings, inside)
                (ap (go_on (rings_seq yield rounds start center))
                    (sym (go_on_done (yield center s)))
                  ∙ rings_seq_lem rounds start center (center ∷ []) s)
        ]
      ]

module _ {S : Type 0} (yield : CoordPacked → S → Bool × S) where
  for_each-pack_cells :
      (out : List CoordPacked) (cs : List Coord) (s : S)
      → go_on (for_each (yield_packed yield) cs) (for_each yield out s)
        ≡ for_each yield (pack_cells out cs) s
  unfolding pack_cells for_each
  for_each-pack_cells out [] s = go_on_done (for_each yield out s)
  for_each-pack_cells out (c ∷ cs) s =
      sym (
        go_on_assoc (yield_packed yield c) (for_each (yield_packed yield) cs)
          (for_each yield out s))
      ∙ ap (go_on (for_each (yield_packed yield) cs)) (one (pack c))
      ∙ for_each-pack_cells (add_packed out c (pack c)) cs s
    where
      one :
          (o : Option _)
          → go_on (yield_if_packed yield c o) (for_each yield out s)
            ≡ for_each yield (add_packed out c o) s
      one none = go_on_done (for_each yield out s)
      one (some p) = sym (for_each-snoc yield out _ s)

  -- For every center and radius that is not negative and for which the runtime can allocate total pairs,
  -- WalkRingsPackedSeq calls yield on the pairs that WalkRingsCoordPacked returns, in their order, until
  -- the first answer of false.
  pub walk_rings_packed_seq-walk_rings_coord_packed :
      (max_alloc : ℕ) (center : Coord) (max_r : ℕ) (s : S)
      → (3 * max_r * max_r + 3 * max_r + 1) * 32 ≤ max_alloc
      → max_alloc < 2 ^ 63
      → (out : List CoordPacked) × (walk_rings_coord_packed max_alloc center (pos max_r) ≡ some out)
        × (walk_rings_packed_seq yield center (pos max_r) s ≡ for_each yield out s)
  unfolding walk_rings_packed_seq for_each
  walk_rings_packed_seq-walk_rings_coord_packed max_alloc center max_r s room limit = (
    pack_cells [] (walk_rings [] center (pos max_r)),
    walk_rings_coord_packed-some max_alloc center max_r room limit,
    walk_rings_seq-walk_rings (yield_packed yield) center (pos max_r) s
        ∙ for_each-pack_cells [] (walk_rings [] center (pos max_r)) s,
  )
