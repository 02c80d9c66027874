-- ===== src/Index/Cell/Laws.antt =====
-- Cell keys are read back, are ordered as their coordinates and commit sequences, and the scan
-- bounds of a cell meet its versions and no others.
use hexxladb.Base.{
  ℕ, ◌-◌, ◌^◌, ◌<◌, ◌≡◌, ◌↔◌, sym, ap, ◌∙◌, List, [], ◌++◌, append-nil, some, arith, length,
  length-append, ok, inl, inr, Option-cases,
}
use hexxladb.Bytes.BigEndian.{be, length-be, of_be-be, AllBytes, drop-AllBytes}
use hexxladb.Bytes.Order.{
  bytes_compare, then_by, compare-be, compare-append, compare-append_equal_length, LeBytes-be,
  InRange, InRange-append, same_head, compare_self,
}
use hexxladb.Bytes.Slices.{
  cut_prefix, cut_prefix-append, append_of_cut_prefix, take-front, drop-front,
}
use hexxladb.Lattice.PackedCoord.{PackedCoord, IsWords, compare_packed, eq_of_compare_packed}
use hexxladb.Index.Packed.{
  packed_be, of_packed_be, length-packed_be, of_packed_be-packed_be, packed_be-of_packed_be,
  compare-packed_be, of_packed_be-IsWords,
}
use hexxladb.Index.Cell.{
  cell_prefix, cell_key, parse_cell_suffix, parse_cell_key, cell_key_with_version,
  parse_cell_version_key, cell_version_scan_bounds, parse_commit_seq_from_cell_key,
}
use Prim.Native.Nat.{compare}

pub length-cell_key : (p : PackedCoord) → length (cell_key p) ≡ 21
unfolding cell_key
length-cell_key p = omega (arith, length-packed_be p)

-- ParseCellKey reads back the coordinate of 64-bit words that CellKey writes.
pub parse-cell_key : (p : PackedCoord) → IsWords p → parse_cell_key (cell_key p) ≡ ok p
unfolding cell_key parse_cell_key
parse-cell_key p w = rw (
  cut_prefix-append cell_prefix (packed_be p),
  length-packed_be p,
  ← append-nil (packed_be p),
  of_packed_be-packed_be p [] w,
)

accepted_suffix :
    (suf : List ℕ) {p : PackedCoord}
    → parse_cell_key (cell_prefix ++ suf) ≡ ok p
    → (length suf ≡ 16) × (of_packed_be suf ≡ p)
unfolding parse_cell_key
accepted_suffix suf h =
    let h' = rw (cut_prefix-append cell_prefix suf) at h in (ground (arith, h'), ground (arith, h'))

-- If ParseCellKey accepts a list of bytes, the list is the key of the coordinate that it returns,
-- and that coordinate has 64-bit words.
pub cell_key_of_parse :
    (key : List ℕ) {p : PackedCoord}
    → AllBytes key
    → parse_cell_key key ≡ ok p
    → (key ≡ cell_key p) × IsWords p
cell_key_of_parse key {p} b h = elim (Option-cases (cut_prefix cell_prefix key)) [
  | inl e ↦ unfold parse_cell_key in cc (ap parse_cell_suffix e)
  | inr (suf, e) ↦ of_suffix suf (append_of_cut_prefix cell_prefix key e)
]
  where
    of_suffix : (suf : List ℕ) → key ≡ cell_prefix ++ suf → (key ≡ cell_key p) × IsWords p
    of_suffix suf e =
        let (l, o) = accepted_suffix suf (rw e at h) in
        let bytes : AllBytes suf = drop-AllBytes 5 (cell_prefix ++ suf) (rw e at b) in
        (
          e
              ∙ unfold cell_key in
                ap (λ t. cell_prefix ++ t)
                  (sym (packed_be-of_packed_be suf bytes l) ∙ ap packed_be o),
          rw (← o) (of_packed_be-IsWords suf bytes l),
        )

-- The byte order of two cell keys is the order of their coordinates, of 64-bit words each.
pub compare-cell_key :
    (p q : PackedCoord)
    → IsWords p
    → IsWords q
    → bytes_compare (cell_key p) (cell_key q) ≡ compare_packed p q
unfolding cell_key
compare-cell_key p q w v =
    compare-append cell_prefix (packed_be p) (packed_be q) ∙ compare-packed_be p q w v

-- ParseCellVersionKey reads back the coordinate of 64-bit words and the 64-bit commit sequence that
-- CellKeyWithVersion writes.
pub parse-cell_key_with_version :
    (p : PackedCoord) (s : ℕ)
    → IsWords p
    → s < 2 ^ 64
    → parse_cell_version_key (cell_key_with_version p s) ≡ ok (p, s)
unfolding parse_cell_version_key cell_key_with_version
parse-cell_key_with_version p s w h = rw (
  length-append (cell_key p) (be 8 s),
  length-cell_key p,
  length-be 8 s,
  take-front 21 (cell_key p) (be 8 s) (length-cell_key p),
  drop-front 21 (cell_key p) (be 8 s) (length-cell_key p),
  parse-cell_key p w,
  of_be-be 8 s h,
)

pub parse_commit_seq-cell_key_with_version :
    (p : PackedCoord) (s : ℕ)
    → IsWords p
    → s < 2 ^ 64
    → parse_commit_seq_from_cell_key (cell_key_with_version p s) ≡ some s
unfolding parse_commit_seq_from_cell_key cell_key_with_version
parse_commit_seq-cell_key_with_version p s w h = rw (
  length-append (cell_key p) (be 8 s),
  length-cell_key p,
  length-be 8 s,
  take-front 21 (cell_key p) (be 8 s) (length-cell_key p),
  drop-front 21 (cell_key p) (be 8 s) (length-cell_key p),
  parse-cell_key p w,
  of_be-be 8 s h,
)

-- The byte order of versioned cell keys, of coordinates of 64-bit words and 64-bit commit sequences,
-- is the order of the coordinates, and within a coordinate that of the commit sequences.
pub compare-cell_key_with_version :
    (p q : PackedCoord) (s t : ℕ)
    → IsWords p
    → IsWords q
    → s < 2 ^ 64
    → t < 2 ^ 64
    → bytes_compare (cell_key_with_version p s) (cell_key_with_version q t)
      ≡ then_by (compare_packed p q) (compare s t)
unfolding cell_key_with_version
compare-cell_key_with_version p q s t w v hs ht = rw (
  compare-append_equal_length (cell_key p) (cell_key q) (be 8 s) (be 8 t)
      (length-cell_key p ∙ sym (length-cell_key q)),
  compare-cell_key p q w v,
  compare-be 8 s t hs ht,
)

-- Of the versioned keys of all cells, of 64-bit words and 64-bit commit sequences, the scan bounds of
-- a cell hold exactly those of that cell.
pub cell_version_scan_bounds-InRange :
    (p q : PackedCoord) (s : ℕ)
    → IsWords p
    → IsWords q
    → s < 2 ^ 64
    → InRange
        (cell_version_scan_bounds p).0
        (cell_version_scan_bounds p).1
        (cell_key_with_version q s)
      ↔ (p ≡ q)
unfolding cell_version_scan_bounds
cell_version_scan_bounds-InRange p q s w v h = (only, all)
  where
    only :
        InRange (cell_key p ++ be 8 0) (cell_key p ++ be 8 (2 ^ 64 - 1)) (cell_key q ++ be 8 s)
        → p ≡ q
    only r =
        let e =
          same_head (cell_key p) (cell_key q) (be 8 0) (be 8 (2 ^ 64 - 1)) (be 8 s)
            (length-cell_key p ∙ sym (length-cell_key q)) r in
        eq_of_compare_packed p q (sym (compare-cell_key p q w v) ∙ rw e (compare_self (cell_key q)))

    all :
        p ≡ q
        → InRange (cell_key p ++ be 8 0) (cell_key p ++ be 8 (2 ^ 64 - 1)) (cell_key q ++ be 8 s)
    all e = rw (← e) (
        InRange-append (cell_key p) (be 8 0) (be 8 (2 ^ 64 - 1)) (be 8 s)
          (LeBytes-be 8 0 s (omega arith) h)
          (LeBytes-be 8 s (2 ^ 64 - 1) (omega arith) (omega arith)))
