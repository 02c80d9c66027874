-- ===== src/Lattice/Packed.antt =====
-- internal/lattice/packed.go and bounds.go: zigzag and Morton coding of cube coordinates in a
-- 128-bit key. `x & (2^k - 1)` is written `x % 2 ^ k`, and `x >> k` is `x / 2 ^ k`.
pub mod Weave
pub mod Morton
pub mod RoundTrip
use hexxladb.Base.{
  ℕ, zero, suc, ◌+◌, ◌-◌, ◌*◌, ◌/◌, ◌%◌, ◌^◌, ◌<◌, Option, none, some, Bool, true, false, not, ◌&&◌,
  ◌||◌, ltb, leb, ◌==◌, if◌then◌else◌,
}
use hexxladb.Base.Int.{ℤ, pos, negsuc, ltb_ℤ, pos_part, neg_part}
use hexxladb.Lattice.Int64.{add64, sub64, neg64, to_uint64, of_uint64}
use hexxladb.Lattice.Coord.{Coord, Cube, to_cube}
use hexxladb.Lattice.PackedCoord.{PackedCoord}
use Prim.Native.Nat.{bit_or}

-- uint64 x << k
abbrev pub shl64 : ℕ → ℕ → ℕ
shl64 x k = x * 2 ^ k % 2 ^ 64

-- The largest |Q|, |R| and |S| of a packed coordinate, MaxAxialAbs.
abbrev pub max_axial_abs : ℕ
max_axial_abs = 2 ^ 18 - 1

-- maxZigzagLimb
abbrev pub max_zigzag_limb : ℕ
max_zigzag_limb = 2 ^ 21 - 1

-- zigzag64. Its panic needs -(n + 1) below 0 for a negative n, which no int64 has.
unfoldable pub zigzag64 : ℤ → ℕ
zigzag64 n =
    if ltb_ℤ n (pos 0)
    then (shl64 (to_uint64 (neg64 (add64 n (pos 1)))) 1 + 1) % 2 ^ 64
    else shl64 (to_uint64 n) 1

-- unzigzag64. The last branch negates an int64.
unfoldable pub unzigzag64 : ℕ → ℤ
unzigzag64 z =
    if z % 2 == 0
    then of_uint64 (z / 2)
    else (let t = (z + 1) % 2 ^ 64 / 2 in
        if t == 0 then negsuc (2 ^ 63 - 1) else neg64 (of_uint64 t))

-- One of the three tests of inPackRangeCube: x > MaxAxialAbs || x < -MaxAxialAbs.
abbrev pub out_of_axis : ℤ → Bool
out_of_axis x = ltb_ℤ (pos max_axial_abs) x || ltb_ℤ x (negsuc (max_axial_abs - 1))

-- inPackRangeCube
unfoldable pub in_pack_range_cube : ℤ → ℤ → ℤ → Bool
in_pack_range_cube q r s =
    if out_of_axis q
    then false
    else if out_of_axis r
    then false
    else if out_of_axis s
    then false
    else true

-- zigzagFits21
unfoldable pub zigzag_fits21 : ℕ → Bool
zigzag_fits21 z = leb z max_zigzag_limb

-- The loop of init that fills mortonExpand7[b], from bit i on.
expand_loop : ℕ → ℕ → ℕ → ℕ → ℕ
expand_loop zero i b e = e
expand_loop (suc rounds) i b e =
    expand_loop rounds (i + 1) b (bit_or e (shl64 (b / 2 ^ i % 2) (3 * i)))

-- mortonExpand7[b]
unfoldable pub morton_expand7 : ℕ → ℕ
unfolding expand_loop
morton_expand7 b = expand_loop 7 0 b 0

-- One round of mortonPack63.
unfoldable pub pack_pass : ℕ → ℕ → ℕ → ℕ → ℕ → ℕ
pack_pass pass qp rp sp m =
    let axis_shift = pass * 7 in
    let morton_base = pass * 21 in
    let with_q = bit_or m (shl64 (morton_expand7 (qp / 2 ^ axis_shift % 128)) morton_base) in
    let with_r =
      bit_or with_q (shl64 (morton_expand7 (rp / 2 ^ axis_shift % 128)) (morton_base + 1)) in
    bit_or with_r (shl64 (morton_expand7 (sp / 2 ^ axis_shift % 128)) (morton_base + 2))

-- mortonPack63
unfoldable pub morton_pack63 : ℕ → ℕ → ℕ → ℕ
unfolding pack_pass
morton_pack63 qp rp sp = pack_pass 2 qp rp sp (pack_pass 1 qp rp sp (pack_pass 0 qp rp sp 0))

-- The loop of mortonUnpack63 from bit i on: the three words so far.
unpack_loop : ℕ → ℕ → ℕ → ℕ → ℕ → ℕ → ℕ × ℕ × ℕ
unpack_loop zero i m qp rp sp = (qp, rp, sp)
unpack_loop (suc rounds) i m qp rp sp =
    unpack_loop rounds (i + 1) m (bit_or qp (shl64 (m / 2 ^ (3 * i) % 2) i))
      (bit_or rp (shl64 (m / 2 ^ (3 * i + 1) % 2) i))
      (bit_or sp (shl64 (m / 2 ^ (3 * i + 2) % 2) i))

-- mortonUnpack63
unfoldable pub morton_unpack63 : ℕ → ℕ × ℕ × ℕ
unfolding unpack_loop
morton_unpack63 m = unpack_loop 21 0 m 0 0 0

-- Pack: `none` for ErrCoordOutOfRange.
unfoldable pub pack : Coord → Option PackedCoord
pack c =
    let cb = to_cube c in
    if not (in_pack_range_cube cb.q cb.r cb.s)
    then none
    else (let qp = zigzag64 cb.q in
        let rp = zigzag64 cb.r in
        let sp = zigzag64 cb.s in
        if not (zigzag_fits21 qp) || not (zigzag_fits21 rp) || not (zigzag_fits21 sp)
        then none
        else some (record { lo = morton_pack63 qp rp sp; hi = 0 }))

-- The part of Unpack that follows mortonUnpack63.
unpack_axes : ℕ × ℕ × ℕ → Option Coord
unpack_axes (qp, rp, sp) =
    if not (zigzag_fits21 qp) || not (zigzag_fits21 rp) || not (zigzag_fits21 sp)
    then none
    else (let q = unzigzag64 qp in
        let r = unzigzag64 rp in
        let s = unzigzag64 sp in
        let sum = add64 (add64 q r) s in
        if ltb_ℤ sum (pos 0) || ltb_ℤ (pos 0) sum
        then none
        else if not (in_pack_range_cube q r s)
        then none
        else some (record { q = q; r = r }))

-- Unpack: `none` for ErrCoordOutOfRange.
unfoldable pub unpack : PackedCoord → Option Coord
unfolding unpack_axes
unpack p =
    if not (p.hi == 0)
    then none
    else if not (p.lo / 2 ^ 63 == 0)
    then none
    else unpack_axes (morton_unpack63 p.lo)
