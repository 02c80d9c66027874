-- ===== src/Index/Packed.antt =====
-- The 16-byte coordinate segment of a key: `appendPackedCoordBE` of cell_key.go and
-- `parsePackedCoordSegment` of seam_by_cells.go.
use hexxladb.Base.{
  ℕ, ◌-◌, ◌^◌, ◌<◌, ◌≡◌, sym, ap, subst, ap₂, ◌∙◌, List, [], ◌++◌, append_assoc, arith, length,
  length-append, take, drop, take-append-drop, length-take, length-drop,
}
use hexxladb.Bytes.BigEndian.{
  be, of_be, length-be, of_be-be, be-of_be, of_be_lt, AllBytes, take-AllBytes, drop-AllBytes,
}
use hexxladb.Bytes.Order.{
  bytes_compare, compare-be, compare-append_equal_length, LeBytes, LeBytes-be, LeBytes-append,
}
use hexxladb.Bytes.Slices.{slice, take-front, drop-front, take-all}
use hexxladb.Lattice.PackedCoord.{PackedCoord, IsWords, compare_packed, compare_packed_lem}

-- appendPackedCoordBE: the high word, then the low word, each big-endian.
unfoldable pub packed_be : PackedCoord → List ℕ
packed_be p = be 8 p.hi ++ be 8 p.lo

-- p[1] = Uint64(seg[0:8]); p[0] = Uint64(seg[8:16])
unfoldable pub of_packed_be : List ℕ → PackedCoord
of_packed_be seg = record { lo = of_be (slice seg 8 16); hi = of_be (slice seg 0 8) }

pub length-packed_be : (p : PackedCoord) → length (packed_be p) ≡ 16
unfolding packed_be
length-packed_be p =
    omega (arith, length-append (be 8 p.hi) (be 8 p.lo), length-be 8 p.hi, length-be 8 p.lo)

-- A segment is read back, whatever follows it.
pub of_packed_be-packed_be :
    (p : PackedCoord) (rest : List ℕ) → IsWords p → of_packed_be (packed_be p ++ rest) ≡ p
unfolding of_packed_be packed_be
of_packed_be-packed_be p rest w = rw (
  append_assoc (be 8 p.hi) (be 8 p.lo) rest,
  drop-front 8 (be 8 p.hi) (be 8 p.lo ++ rest) (length-be 8 p.hi),
  take-front 8 (be 8 p.hi) (be 8 p.lo ++ rest) (length-be 8 p.hi),
  take-front 8 (be 8 p.lo) rest (length-be 8 p.lo),
  of_be-be 8 p.hi w.hi_bound,
  of_be-be 8 p.lo w.lo_bound,
)

be_slice : (bs : List ℕ) → AllBytes bs → length bs ≡ 8 → be 8 (of_be bs) ≡ bs
be_slice bs h e = rw (← e) (be-of_be bs h)

slice_bound : (bs : List ℕ) → AllBytes bs → length bs ≡ 8 → of_be bs < 2 ^ 64
slice_bound bs h e = subst (λ (n : ℕ). of_be bs < 256 ^ n) e (of_be_lt bs h)

-- Sixteen bytes are what their coordinate is written as.
pub packed_be-of_packed_be :
    (seg : List ℕ) → AllBytes seg → length seg ≡ 16 → packed_be (of_packed_be seg) ≡ seg
unfolding of_packed_be packed_be
packed_be-of_packed_be seg h e =
    ap₂ ◌++◌ (be_slice (take 8 seg) (take-AllBytes 8 seg h) (omega (arith, length-take 8 seg))) (
      ap (be 8) (ap of_be (take-all 8 (drop 8 seg) (omega (arith, length-drop 8 seg))))
      ∙ be_slice (drop 8 seg) (drop-AllBytes 8 seg h) (omega (arith, length-drop 8 seg)))
    ∙ take-append-drop 8 seg

pub of_packed_be-IsWords :
    (seg : List ℕ) → AllBytes seg → length seg ≡ 16 → IsWords (of_packed_be seg)
unfolding of_packed_be
of_packed_be-IsWords seg h e = record {
  lo_bound =
      slice_bound (take 8 (drop 8 seg)) (take-AllBytes 8 (drop 8 seg) (drop-AllBytes 8 seg h))
        (omega (arith, length-take 8 (drop 8 seg), length-drop 8 seg));
  hi_bound = slice_bound (take 8 seg) (take-AllBytes 8 seg h) (omega (arith, length-take 8 seg));
}

-- The bytes are ordered as the coordinates.
pub compare-packed_be :
    (p q : PackedCoord)
    → IsWords p
    → IsWords q
    → bytes_compare (packed_be p) (packed_be q) ≡ compare_packed p q
unfolding packed_be
compare-packed_be p q w v = rw (
  compare-append_equal_length (be 8 p.hi) (be 8 q.hi) (be 8 p.lo) (be 8 q.lo)
      (length-be 8 p.hi ∙ sym (length-be 8 q.hi)),
  compare-be 8 p.hi q.hi w.hi_bound v.hi_bound,
  compare-be 8 p.lo q.lo w.lo_bound v.lo_bound,
  compare_packed_lem,
)

-- The zero coordinate and the one with all bits set bound all others.
abbrev pub min_packed : PackedCoord
min_packed = record { lo = 0; hi = 0 }

abbrev pub max_packed : PackedCoord
max_packed = record { lo = 2 ^ 64 - 1; hi = 2 ^ 64 - 1 }

pub min_packed-LeBytes :
    (p : PackedCoord) → IsWords p → LeBytes (packed_be min_packed) (packed_be p)
unfolding packed_be
min_packed-LeBytes p w =
    LeBytes-append (be 8 0) (be 8 p.hi) (be 8 0) (be 8 p.lo)
      (length-be 8 0 ∙ sym (length-be 8 p.hi)) (LeBytes-be 8 0 p.hi (omega arith) w.hi_bound)
      (LeBytes-be 8 0 p.lo (omega arith) w.lo_bound)

pub max_packed-LeBytes :
    (p : PackedCoord) → IsWords p → LeBytes (packed_be p) (packed_be max_packed)
unfolding packed_be
max_packed-LeBytes p w =
    LeBytes-append (be 8 p.hi) (be 8 (2 ^ 64 - 1)) (be 8 p.lo) (be 8 (2 ^ 64 - 1))
      (length-be 8 p.hi ∙ sym (length-be 8 (2 ^ 64 - 1)))
      (LeBytes-be 8 p.hi (2 ^ 64 - 1) (omega (arith, w.hi_bound)) (omega arith))
      (LeBytes-be 8 p.lo (2 ^ 64 - 1) (omega (arith, w.lo_bound)) (omega arith))

-- Two coordinates of 64-bit words with the same bytes are equal.
pub packed_be_injective :
    (p q : PackedCoord) → IsWords p → IsWords q → packed_be p ≡ packed_be q → p ≡ q
packed_be_injective p q w v e =
    sym (of_packed_be-packed_be p [] w)
    ∙ ap (λ t. of_packed_be (t ++ [])) e
    ∙ of_packed_be-packed_be q [] v
