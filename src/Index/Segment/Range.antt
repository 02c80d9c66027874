-- ===== src/Index/Segment/Range.antt =====
-- The scan ranges for one text: they meet the keys of that text and no others.
use hexxladb.Base.{
  ℕ, ◌+◌, ◌-◌, ◌^◌, ◌<◌, ◌≤◌, ◌≡◌, ◌↔◌, sym, ap, ◌∙◌, List, [], ◌∷◌, ◌++◌, append_assoc, ok,
  ok_path, pair_path, arith, length, length-append, ltb, false,
}
use hexxladb.Bytes.BigEndian.{be, of_be, length-be, of_be-be}
use hexxladb.Bytes.Order.{LeBytes-be, LeBytes-append, InRange, InRange-append, same_head}
use hexxladb.Lattice.PackedCoord.{PackedCoord, IsWords}
use hexxladb.Index.Packed.{
  packed_be, length-packed_be, min_packed, max_packed, min_packed-LeBytes, max_packed-LeBytes,
}
use hexxladb.Index.Errors.{KeyError}
use hexxladb.Index.Segment.Read.{segment_key_lem, segment_key_with_version_lem}
use mathlib.Core.List.{append_cancel_left, append_cancel_right}
use hexxladb.Index.Segment.{
  segment_key, segment_key_with_version, range_prefix, range_prefix_all_versions,
}

-- The head that the keys of one text share.
abbrev head : List ℕ → List ℕ → List ℕ
head prefix id = prefix ++ (be 2 (length id) ++ (id ++ b'/' ∷ []))

length-head : (prefix id : List ℕ) → length (head prefix id) ≡ length prefix + length id + 3
length-head prefix id = omega (
  arith,
  length-append prefix (be 2 (length id) ++ (id ++ b'/' ∷ [])),
  length-append (be 2 (length id)) (id ++ b'/' ∷ []),
  length-append id (b'/' ∷ []),
  length-be 2 (length id),
)

module _ (prefix id jd : List ℕ) (h : length id ≤ 0xffff) (k : length jd ≤ 0xffff) where
  equal_lengths :
      (from to t : List ℕ)
      → InRange (head prefix id ++ from) (head prefix id ++ to) (head prefix jd ++ t)
      → length id ≡ length jd
  equal_lengths from to t r =
      let split = λ (id : List ℕ) (x : List ℕ).
        let e : head prefix id ++ x ≡ (prefix ++ be 2 (length id)) ++ (id ++ (b'/' ∷ x)) =
          simp append_assoc in
        e in
      let r' = rw (split id from, split id to, split jd t) at r in
      let e =
        same_head (prefix ++ be 2 (length id)) (prefix ++ be 2 (length jd)) _ _ _
          (omega (
            arith,
            length-append prefix (be 2 (length id)),
            length-append prefix (be 2 (length jd)),
            length-be 2 (length id),
            length-be 2 (length jd),
          ))
          r' in
      sym (of_be-be 2 (length id) (omega arith))
      ∙ ap of_be (append_cancel_left prefix _ _ e)
      ∙ of_be-be 2 (length jd) (omega arith)

  -- Heads are told apart by the length and then by the text.
  head_injective :
      (from to t : List ℕ)
      → InRange (head prefix id ++ from) (head prefix id ++ to) (head prefix jd ++ t)
      → id ≡ jd
  head_injective from to t r =
      let n = equal_lengths from to t r in
      let e =
        same_head (head prefix id) (head prefix jd) from to t
          (omega (arith, n, length-head prefix id, length-head prefix jd)) r in
      let e' = append_cancel_left prefix _ _ e in
      append_cancel_right _ _ (b'/' ∷ [])
        (append_cancel_left (be 2 (length id)) _ _ (rw (← n) at e'))

module _ (prefix : List ℕ) (max_bytes : ℕ) (too_long : KeyError) (fits : max_bytes ≤ 0xffff) where
  range_prefix_lem :
      (id : List ℕ)
      → length id ≤ max_bytes
      → range_prefix prefix max_bytes too_long id
        ≡ ok (head prefix id ++ packed_be min_packed, head prefix id ++ packed_be max_packed)
  unfolding range_prefix
  range_prefix_lem id k =
      let short : ltb max_bytes (length id) ≡ false = ground arith in
      let narrow : ltb 0xffff (length id) ≡ false = ground arith in
      rw (short, narrow) (simp append_assoc)

  range_prefix_all_versions_lem :
      (id : List ℕ)
      → length id ≤ max_bytes
      → range_prefix_all_versions prefix max_bytes too_long id
        ≡ ok (
          head prefix id ++ (packed_be min_packed ++ be 8 0),
          head prefix id ++ (packed_be max_packed ++ be 8 (2 ^ 64 - 1)),
        )
  unfolding range_prefix_all_versions
  range_prefix_all_versions_lem id k = rw (range_prefix_lem id k) (simp append_assoc)

  -- The two bounds of the range of a text meet a key exactly if it is a key of that text.
  pub range_prefix-InRange :
      (id jd : List ℕ) (p : PackedCoord) {from to key : List ℕ}
      → IsWords p
      → length id ≤ max_bytes
      → length jd ≤ max_bytes
      → range_prefix prefix max_bytes too_long id ≡ ok (from, to)
      → segment_key prefix max_bytes too_long jd p ≡ ok key
      → InRange from to key ↔ (id ≡ jd)
  range_prefix-InRange id jd p {from} {to} {key} w h k eb ek =
      let (f, t) = pair_path (ok_path (sym (range_prefix_lem id h) ∙ eb)) in
      let e = ok_path (sym (segment_key_lem prefix max_bytes too_long fits jd p k) ∙ ek) in
      let e' : head prefix jd ++ packed_be p ≡ key = simp append_assoc e in
      rw (← f, ← t, ← e')
        (
          head_injective prefix id jd (omega arith) (omega arith) _ _ _,
          λ same. rw same (
              InRange-append (head prefix jd) _ _ _ (min_packed-LeBytes p w)
                (max_packed-LeBytes p w)),
        )

  -- The same, where the keys end in a commit sequence.
  pub range_prefix_all_versions-InRange :
      (id jd : List ℕ) (p : PackedCoord) (s : ℕ) {from to key : List ℕ}
      → IsWords p
      → s < 2 ^ 64
      → length id ≤ max_bytes
      → length jd ≤ max_bytes
      → range_prefix_all_versions prefix max_bytes too_long id ≡ ok (from, to)
      → segment_key_with_version prefix max_bytes too_long jd p s ≡ ok key
      → InRange from to key ↔ (id ≡ jd)
  range_prefix_all_versions-InRange id jd p s {from} {to} {key} w b h k eb ek =
      let (f, t) = pair_path (ok_path (sym (range_prefix_all_versions_lem id h) ∙ eb)) in
      let e =
        ok_path (sym (segment_key_with_version_lem prefix max_bytes too_long fits jd p s k) ∙ ek) in
      let e' : head prefix jd ++ (packed_be p ++ be 8 s) ≡ key = simp append_assoc e in
      rw (← f, ← t, ← e')
        (
          head_injective prefix id jd (omega arith) (omega arith) _ _ _,
          λ same. rw same (
              InRange-append (head prefix jd) _ _ _
                (LeBytes-append _ _ _ _ (length-packed_be min_packed ∙ sym (length-packed_be p))
                  (min_packed-LeBytes p w) (LeBytes-be 8 0 s (omega arith) b))
                (LeBytes-append _ _ _ _ (length-packed_be p ∙ sym (length-packed_be max_packed))
                  (max_packed-LeBytes p w)
                  (LeBytes-be 8 s (2 ^ 64 - 1) (omega arith) (omega arith)))),
        )
