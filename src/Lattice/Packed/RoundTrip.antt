-- ===== src/Lattice/Packed/RoundTrip.antt =====
-- Pack and Unpack on coordinates.
use hexxladb.Base.{
  ℕ, suc, ◌+◌, ◌*◌, ◌/◌, ◌%◌, ◌^◌, ◌≤◌, ◌<◌, ◌≡◌, ◌↔◌, refl, arith, true, false, some, inl, inr,
  Bool-cases,
}
use hexxladb.Base.Int.{ℤ, pos, negsuc, pos_part, neg_part, ◌+ℤ◌, +ℤ_parts}
use hexxladb.Lattice.Int64.{add64, sub64, neg64, to_uint64, of_uint64, int64_laws}
use hexxladb.Lattice.Coord.{Coord, to_cube}
use hexxladb.Lattice.PackedCoord.{PackedCoord}
use hexxladb.Lattice.Packed.{
  max_axial_abs, zigzag64, unzigzag64, in_pack_range_cube, zigzag_fits21, pack, unpack, unpack_axes,
  out_of_axis,
}
use hexxladb.Lattice.Packed.Weave.{weave, weave_bound}
use hexxladb.Lattice.Packed.Morton.{morton_pack63_lem, morton_unpack63_lem}

-- |x| ≤ MaxAxialAbs
abbrev pub InAxis : ℤ → Type 0
InAxis x = (pos_part x ≤ max_axial_abs) × (neg_part x ≤ max_axial_abs)

zigzag : ℤ → ℕ
zigzag (pos n) = 2 * n
zigzag (negsuc n) = 2 * n + 1

zigzag64_lem : (x : ℤ) → InAxis x → zigzag64 x ≡ zigzag x
unfolding zigzag64 zigzag to_uint64
zigzag64_lem (pos n) h = ground arith
zigzag64_lem (negsuc n) h =
    let next : neg64 (add64 (negsuc n) (pos 1)) ≡ pos n = omega int64_laws in rw next (ground arith)

unzigzag64_lem : (x : ℤ) → InAxis x → unzigzag64 (zigzag x) ≡ x
unfolding unzigzag64 zigzag of_uint64
unzigzag64_lem (pos n) h =
    let even : 2 * n % 2 ≡ 0 = omega arith in
    let half : 2 * n / 2 ≡ n = omega arith in rw (even, half) (ground arith)
unzigzag64_lem (negsuc n) h =
    let odd : (2 * n + 1) % 2 ≡ 1 = omega arith in
    let half : (2 * n + 1 + 1) % 2 ^ 64 / 2 ≡ suc n = omega arith in
    let same : of_uint64 (suc n) ≡ pos (suc n) = ground arith in
    let back : neg64 (pos (suc n)) ≡ negsuc n = omega int64_laws in
    rw (odd, half) (unfold unzigzag64 in rw (same, back) (ground arith))

zigzag_bound : (x : ℤ) → InAxis x → zigzag x < 2 ^ 19
unfolding zigzag
zigzag_bound (pos n) h = omega arith
zigzag_bound (negsuc n) h = omega arith

-- The cube coordinates of a coordinate that can be packed.
record InPack (c : Coord) : Type 0 where
  q_axis : InAxis c.q
  r_axis : InAxis c.r
  s_axis : InAxis (to_cube c).s

axis_test : (x : ℤ) → InAxis x → out_of_axis x ≡ false
axis_test (pos n) h = ground arith
axis_test (negsuc n) h = ground arith

axis_of_test : (x : ℤ) → out_of_axis x ≡ false → InAxis x
axis_of_test (pos n) h = ground arith
axis_of_test (negsuc n) h = ground arith

in_range : (q r s : ℤ) → InAxis q → InAxis r → InAxis s → in_pack_range_cube q r s ≡ true
unfolding in_pack_range_cube
in_range q r s hq hr hs = rw (axis_test q hq, axis_test r hr, axis_test s hs)

cube_sum :
    (c : Coord)
    → InPack c
    → pos_part c.q + pos_part c.r + pos_part (to_cube c).s
      ≡ neg_part c.q + neg_part c.r + neg_part (to_cube c).s
unfolding to_cube
cube_sum c h = omega (int64_laws, h.q_axis, h.r_axis)

-- An integer of the box has its negation there.
negated : (x y : ℤ) → InAxis x → pos_part x + pos_part y ≡ neg_part x + neg_part y → InAxis y
negated x (pos n) h e = omega arith
negated x (negsuc n) h e = omega arith

-- The three tests in turn.
axes_of_range : (q r s : ℤ) → in_pack_range_cube q r s ≡ true → InAxis q × InAxis r × InAxis s
unfolding in_pack_range_cube
axes_of_range q r s h =
    (axis_of_test q (ground arith), axis_of_test r (ground arith), axis_of_test s (ground arith))

fits : (x : ℤ) → InAxis x → zigzag_fits21 (zigzag x) ≡ true
unfolding zigzag_fits21
fits x h = ground (arith, zigzag_bound x h)

-- The Morton code of the zigzag codes.
code : Coord → PackedCoord
code c = record { lo = weave 21 (zigzag c.q) (zigzag c.r) (zigzag (to_cube c).s); hi = 0 }

-- Pack takes the coordinates in the box and gives the Morton code of their zigzag codes.
pack_lem : (c : Coord) → InPack c → pack c ≡ some (code c)
unfolding pack code
pack_lem c h =
    let s = (to_cube c).s in
    let q_same : (to_cube c).q ≡ c.q = unfold to_cube in refl in
    let r_same : (to_cube c).r ≡ c.r = unfold to_cube in refl in
    rw (
      q_same,
      r_same,
      in_range c.q c.r s h.q_axis h.r_axis h.s_axis,
      zigzag64_lem c.q h.q_axis,
      zigzag64_lem c.r h.r_axis,
      zigzag64_lem s h.s_axis,
      fits c.q h.q_axis,
      fits c.r h.r_axis,
      fits s h.s_axis,
      morton_pack63_lem (zigzag c.q) (zigzag c.r) (zigzag s),
    )

-- What Pack refuses is outside the box.
InPack-of_pack : (c : Coord) {p : PackedCoord} → pack c ≡ some p → InPack c
InPack-of_pack c {p} h = elim (Bool-cases (in_pack_range_cube c.q c.r (to_cube c).s)) [
  | inl inside ↦
      let (hq, hr, hs) = axes_of_range c.q c.r (to_cube c).s inside in
      record { q_axis = hq; r_axis = hr; s_axis = hs }
  | inr outside ↦ absurd (refused outside)
]
  where
    refused : in_pack_range_cube c.q c.r (to_cube c).s ≡ false → ⊥
    refused e = unfold pack to_cube in cc (rw e at h)

unpack_axes_lem :
    (q r s : ℤ)
    → InAxis q
    → InAxis r
    → InAxis s
    → pos_part q + pos_part r + pos_part s ≡ neg_part q + neg_part r + neg_part s
    → unpack_axes (zigzag q, zigzag r, zigzag s) ≡ some (record { q = q; r = r })
unfolding unpack_axes
unpack_axes_lem q r s hq hr hs e =
    let sum : add64 (add64 q r) s ≡ pos 0 = omega int64_laws in
    rw (
      fits q hq,
      fits r hr,
      fits s hs,
      unzigzag64_lem q hq,
      unzigzag64_lem r hr,
      unzigzag64_lem s hs,
      sum,
      in_range q r s hq hr hs,
    )

unpack_lem : (c : Coord) → InPack c → unpack (code c) ≡ some c
unfolding unpack code
unpack_lem c h =
    let s = (to_cube c).s in
    let w = weave 21 (zigzag c.q) (zigzag c.r) (zigzag s) in
    let small : w / 2 ^ 63 ≡ 0 =
      omega (arith, weave_bound 21 (zigzag c.q) (zigzag c.r) (zigzag s)) in
    let same = λ (x : ℤ) (k : InAxis x).
      let e : zigzag x % 2 ^ 21 ≡ zigzag x = omega (arith, zigzag_bound x k) in e in
    let sum : pos_part c.q + pos_part c.r + pos_part s ≡ neg_part c.q + neg_part c.r + neg_part s =
      cube_sum c h in
    rw
      (
        small,
        morton_unpack63_lem (zigzag c.q) (zigzag c.r) (zigzag s),
        same c.q h.q_axis,
        same c.r h.r_axis,
        same s h.s_axis,
      )
      (unpack_axes_lem c.q c.r s h.q_axis h.r_axis h.s_axis sum)

-- Unpack reads back every coordinate for which Pack gives a key.
pub unpack-pack : (c : Coord) {p : PackedCoord} → pack c ≡ some p → unpack p ≡ some c
unpack-pack c {p} e =
    let h = InPack-of_pack c e in
    let same : code c ≡ p = cc (pack_lem c h) in rw (← same) (unpack_lem c h)

-- |Q|, |R| and |S| are at most MaxAxialAbs, in exact arithmetic.
abbrev pub InBox : Coord → Type 0
InBox c = InAxis c.q × InAxis c.r × InAxis (c.q +ℤ c.r)

InPack-of_box : (c : Coord) → InBox c → InPack c
unfolding to_cube
InPack-of_box c (hq, hr, hs) = record {
  q_axis = hq;
  r_axis = hr;
  s_axis = negated (c.q +ℤ c.r) (sub64 (neg64 c.q) c.r) hs (omega (int64_laws, +ℤ_parts));
}

InBox-of_pack : (c : Coord) → InPack c → InBox c
InBox-of_pack c h = (
  h.q_axis,
  h.r_axis,
  negated (to_cube c).s (c.q +ℤ c.r) h.s_axis (omega (arith, cube_sum c h, +ℤ_parts)),
)

-- Pack gives a key exactly to the coordinates of the box, |Q|, |R| and |Q + R| at most 2 ^ 18 - 1 in
-- exact arithmetic, and a key uses the 63 low bits of the low word only.
pub pack_domain :
    (c : Coord) → ((p : PackedCoord) × (pack c ≡ some p) × (p.lo < 2 ^ 63) × (p.hi ≡ 0)) ↔ InBox c
pack_domain c = (
  λ packed. InBox-of_pack c (InPack-of_pack c packed.1),
  λ box. (
    code c,
    pack_lem c (InPack-of_box c box),
    unfold code in weave_bound 21 (zigzag c.q) (zigzag c.r) (zigzag (to_cube c).s),
    unfold code in refl,
  ),
)

-- Two coordinates to which Pack gives the same key are equal.
pub pack_injective : (c d : Coord) {p : PackedCoord} → pack c ≡ some p → pack d ≡ some p → c ≡ d
pack_injective c d e f = cc (unpack-pack c e, unpack-pack d f)
