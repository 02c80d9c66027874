-- ===== src/Index/Segment/Read.antt =====
-- Keys with a length-prefixed text are read back.
use hexxladb.Base.{
  ℕ, ◌^◌, ◌<◌, ◌≤◌, ◌≡◌, refl, sym, ap, ◌∙◌, List, [], ◌∷◌, ◌++◌, append_assoc, append-nil, Option,
  none, some, arith, length, length-append, Result, ok, err, lt→ltb, ◌>>=◌, ltb, false,
}
use hexxladb.Bytes.BigEndian.{be, length-be, of_be-be}
use hexxladb.Bytes.Slices.{cut_prefix, cut_prefix-append, take-front, drop-front}
use hexxladb.Lattice.PackedCoord.{PackedCoord, IsWords}
use hexxladb.Index.Packed.{packed_be, of_packed_be, length-packed_be, of_packed_be-packed_be}
use hexxladb.Index.Errors.{KeyError}
use hexxladb.Index.Segment.{
  read_tail, read_tail_plain, read_layout, read_after_prefix, parse_segment, parse_segment_with_seq,
  segment_key, segment_key_with_version, append_len_prefixed_utf8,
}

-- The bytes of a commit sequence, if there is one.
abbrev pub seq_suffix : Option ℕ → List ℕ
seq_suffix none = []
seq_suffix (some s) = be 8 s

abbrev pub IsSeq : Option ℕ → Type 0
IsSeq none = Unit
IsSeq (some s) = s < 2 ^ 64

length-tail : (p : PackedCoord) (seq : Option ℕ) → 16 ≤ length (packed_be p ++ seq_suffix seq)
length-tail p seq = omega (arith, length-append (packed_be p) (seq_suffix seq), length-packed_be p)

read_tail_lem :
    (id : List ℕ) (p : PackedCoord) (seq : Option ℕ)
    → IsWords p
    → IsSeq seq
    → read_tail id (packed_be p ++ seq_suffix seq) ≡ ok (id, p, seq)
unfolding read_tail
read_tail_lem id p none w h =
    let whole : of_packed_be (packed_be p) ≡ p =
      ap of_packed_be (sym (append-nil (packed_be p))) ∙ of_packed_be-packed_be p [] w in
    rw (append-nil (packed_be p), length-packed_be p, whole)
read_tail_lem id p (some s) w h =
    let whole : of_packed_be (packed_be p) ≡ p =
      ap of_packed_be (sym (append-nil (packed_be p))) ∙ of_packed_be-packed_be p [] w in
    rw (
      length-append (packed_be p) (be 8 s),
      length-packed_be p,
      length-be 8 s,
      take-front 16 (packed_be p) (be 8 s) (length-packed_be p),
      drop-front 16 (packed_be p) (be 8 s) (length-packed_be p),
      of_be-be 8 s h,
      whole,
    )

read_tail_plain_lem :
    (id : List ℕ) (p : PackedCoord) (seq : Option ℕ)
    → IsWords p
    → read_tail_plain id (packed_be p ++ seq_suffix seq) ≡ ok (id, p)
unfolding read_tail_plain
read_tail_plain_lem id p none w =
    let whole : of_packed_be (packed_be p) ≡ p =
      ap of_packed_be (sym (append-nil (packed_be p))) ∙ of_packed_be-packed_be p [] w in
    rw (append-nil (packed_be p), length-packed_be p, whole)
read_tail_plain_lem id p (some s) w =
    let whole : of_packed_be (packed_be p) ≡ p =
      ap of_packed_be (sym (append-nil (packed_be p))) ∙ of_packed_be-packed_be p [] w in
    rw (
      length-append (packed_be p) (be 8 s),
      length-packed_be p,
      length-be 8 s,
      take-front 16 (packed_be p) (be 8 s) (length-packed_be p),
      whole,
    )

-- What stands behind the prefix of a key with the layout is handed to the reader of its end.
module _ {A : Type 0} (tail : List ℕ → List ℕ → Result KeyError A) where
  read_layout_lem :
      (id : List ℕ) (max_bytes : ℕ) (p : PackedCoord) (seq : Option ℕ)
      → length id ≤ max_bytes
      → read_layout tail max_bytes (length id) (id ++ b'/' ∷ (packed_be p ++ seq_suffix seq))
        ≡ tail id (packed_be p ++ seq_suffix seq)
  unfolding read_layout
  read_layout_lem id max_bytes p seq k =
      rw
        (
          take-front (length id) id (b'/' ∷ (packed_be p ++ seq_suffix seq)) refl,
          drop-front (length id) id (b'/' ∷ (packed_be p ++ seq_suffix seq)) refl,
        )
        (ground
          (arith, length-append id (b'/' ∷ (packed_be p ++ seq_suffix seq)), length-tail p seq))

  read_after_prefix_lem :
      (prefix id : List ℕ) (max_bytes : ℕ) (p : PackedCoord) (seq : Option ℕ)
      → length id ≤ max_bytes
      → length id ≤ 0xffff
      → read_after_prefix tail max_bytes (
          cut_prefix prefix
            (prefix ++ (be 2 (length id) ++ (id ++ b'/' ∷ (packed_be p ++ seq_suffix seq)))))
        ≡ tail id (packed_be p ++ seq_suffix seq)
  unfolding read_after_prefix
  read_after_prefix_lem prefix id max_bytes p seq k l =
      let rest = id ++ b'/' ∷ (packed_be p ++ seq_suffix seq) in
      let long : ltb (length (be 2 (length id) ++ rest)) 2 ≡ false =
        ground (arith, length-append (be 2 (length id)) rest, length-be 2 (length id)) in
      rw (
        cut_prefix-append prefix (be 2 (length id) ++ rest),
        long,
        take-front 2 (be 2 (length id)) rest (length-be 2 (length id)),
        drop-front 2 (be 2 (length id)) rest (length-be 2 (length id)),
        of_be-be 2 (length id) (omega arith),
        read_layout_lem id max_bytes p seq k,
      )

module _ (prefix id : List ℕ) (max_bytes : ℕ) (p : PackedCoord) (seq : Option ℕ) (w : IsWords p)
    (k : length id ≤ max_bytes) (l : length id ≤ 0xffff) where
  pub parse_segment_lem :
      parse_segment prefix max_bytes
        (prefix ++ (be 2 (length id) ++ (id ++ b'/' ∷ (packed_be p ++ seq_suffix seq))))
      ≡ ok (id, p)
  unfolding parse_segment
  parse_segment_lem =
      read_after_prefix_lem read_tail_plain prefix id max_bytes p seq k l
      ∙ read_tail_plain_lem id p seq w

  pub parse_segment_with_seq_lem :
      IsSeq seq
      → parse_segment_with_seq prefix max_bytes
          (prefix ++ (be 2 (length id) ++ (id ++ b'/' ∷ (packed_be p ++ seq_suffix seq))))
        ≡ ok (id, p, seq)
  unfolding parse_segment_with_seq
  parse_segment_with_seq_lem h =
      read_after_prefix_lem read_tail prefix id max_bytes p seq k l ∙ read_tail_lem id p seq w h

-- A key is written exactly for a text that is short enough, and is then read back.
module _ (prefix : List ℕ) (max_bytes : ℕ) (too_long : KeyError) (fits : max_bytes ≤ 0xffff) where
  pub segment_key_lem :
      (id : List ℕ) (p : PackedCoord)
      → length id ≤ max_bytes
      → segment_key prefix max_bytes too_long id p
        ≡ ok (prefix ++ (be 2 (length id) ++ (id ++ b'/' ∷ packed_be p)))
  unfolding segment_key append_len_prefixed_utf8
  segment_key_lem id p k =
      let short : ltb max_bytes (length id) ≡ false = ground arith in
      let narrow : ltb 0xffff (length id) ≡ false = ground arith in
      rw (short, narrow) (simp append_assoc)

  pub segment_key_with_version_lem :
      (id : List ℕ) (p : PackedCoord) (s : ℕ)
      → length id ≤ max_bytes
      → segment_key_with_version prefix max_bytes too_long id p s
        ≡ ok (prefix ++ (be 2 (length id) ++ (id ++ b'/' ∷ (packed_be p ++ be 8 s))))
  unfolding segment_key_with_version
  segment_key_with_version_lem id p s k = rw (segment_key_lem id p k) (simp append_assoc)

  pub segment_key_too_long :
      (id : List ℕ) (p : PackedCoord)
      → max_bytes < length id
      → segment_key prefix max_bytes too_long id p ≡ err too_long
  unfolding segment_key append_len_prefixed_utf8
  segment_key_too_long id p k = rw (lt→ltb max_bytes (length id) k)

  pub parse-segment_key :
      (id : List ℕ) (p : PackedCoord)
      → IsWords p
      → length id ≤ max_bytes
      → (segment_key prefix max_bytes too_long id p >>= parse_segment prefix max_bytes) ≡ ok (id, p)
  parse-segment_key id p w k =
      rw (segment_key_lem id p k, ← append-nil (packed_be p))
        (parse_segment_lem prefix id max_bytes p none w k (omega arith))

  pub parse-segment_key_with_version :
      (id : List ℕ) (p : PackedCoord) (s : ℕ)
      → IsWords p
      → s < 2 ^ 64
      → length id ≤ max_bytes
      → (segment_key_with_version prefix max_bytes too_long id p s
          >>= parse_segment_with_seq prefix max_bytes)
        ≡ ok (id, p, some s)
  parse-segment_key_with_version id p s w h k =
      rw (segment_key_with_version_lem id p s k)
        (parse_segment_with_seq_lem prefix id max_bytes p (some s) w k (omega arith) h)
