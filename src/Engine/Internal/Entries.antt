-- ===== src/Engine/Internal/Entries.antt =====
-- The keys and pointers of an internal page, as the writer puts them and as the parser reads them.
use hexxladb.Base.{
  ℕ, suc, ◌+◌, ◌-◌, ◌*◌, ◌^◌, ◌≤◌, ◌<◌, ◌≡◌, refl, sym, ap, ◌∙◌, List, [], ◌∷◌, ◌++◌, append_assoc,
  append-nil, arith, length, length-append, ltb, false, ok,
}
use hexxladb.Bytes.BigEndian.{be, length-be, of_be-be}
use hexxladb.Bytes.Slices.{slice, slice_middle}
use hexxladb.Engine.Page.{uint16_from_int, put_next, zeros, length-zeros}
use hexxladb.Engine.Internal.{
  internal_entry, internal_loop, put_internal_entry, put_internal_entries,
}

-- The bytes of a key and the pointer to its right.
abbrev pub separator_bytes : List ℕ → ℕ → List ℕ
separator_bytes k p = be 2 (length k) ++ (k ++ be 8 p)

abbrev pub separator_size : List ℕ → ℕ
separator_size k = 10 + length k

abbrev pub separators_bytes : List (List ℕ) → List ℕ → List ℕ
separators_bytes [] ptrs = []
separators_bytes (k ∷ keys) [] = []
separators_bytes (k ∷ keys) (p ∷ ptrs) = separator_bytes k p ++ separators_bytes keys ptrs

abbrev pub separators_size : List (List ℕ) → List ℕ → ℕ
separators_size [] ptrs = 0
separators_size (k ∷ keys) [] = 0
separators_size (k ∷ keys) (p ∷ ptrs) = separator_size k + separators_size keys ptrs

-- As many keys as pointers to their right, keys of 1 to 256 bytes and pointers of 64 bits.
abbrev pub AreSeparators : List (List ℕ) → List ℕ → Type 0
AreSeparators [] [] = Unit
AreSeparators [] (p ∷ ptrs) = ⊥
AreSeparators (k ∷ keys) [] = ⊥
AreSeparators (k ∷ keys) (p ∷ ptrs) =
    (0 < length k) × (length k ≤ 256) × (p < 2 ^ 64) × AreSeparators keys ptrs

pub length-separator_bytes : (k : List ℕ) (p : ℕ) → length (separator_bytes k p) ≡ separator_size k
length-separator_bytes k p = omega (
  arith,
  length-append (be 2 (length k)) (k ++ be 8 p),
  length-append k (be 8 p),
  length-be 2 (length k),
  length-be 8 p,
)

put_internal_entry_lem :
    (front k : List ℕ) (p n off : ℕ)
    → length front ≡ off
    → put_internal_entry (front ++ zeros n) off k (length k) p
      ≡ (front ++ separator_bytes k p) ++ zeros (n - separator_size k)
unfolding put_internal_entry
put_internal_entry_lem front k p n off h =
    let a = be 2 (length k) in
    let c = be 8 p in
    let la = length-be 2 (length k) in
    let lc = length-be 8 p in
    let n1 = n - length a in
    let n2 = n1 - length k in
    let size : n2 - length c ≡ n - separator_size k = omega (arith, la, lc) in
    rw
      (
        put_next front a n off h,
        put_next (front ++ a) k n1 (off + 2) (omega (arith, length-append front a, la)),
        put_next ((front ++ a) ++ k) c n2 (off + 2 + length k)
            (omega (arith, length-append front a, length-append (front ++ a) k, la)),
        size,
      )
      (ap (λ l. l ++ zeros (n - separator_size k)) (simp append_assoc))

pub put_internal_entries_lem :
    (keys : List (List ℕ)) (ptrs front : List ℕ) (n off : ℕ)
    → AreSeparators keys ptrs
    → length front ≡ off
    → separators_size keys ptrs ≤ n
    → put_internal_entries (front ++ zeros n) off keys ptrs
      ≡ ok (front ++ (separators_bytes keys ptrs ++ zeros (n - separators_size keys ptrs)))
unfolding put_internal_entries uint16_from_int
put_internal_entries_lem [] ptrs front n off h l fits =
    ap (λ m. ok (front ++ zeros m)) (omega arith)
put_internal_entries_lem (k ∷ keys) [] front n off h l fits = absurd h
put_internal_entries_lem (k ∷ keys) (p ∷ ptrs) front n off (pos_key, small_key, small_ptr, h) l
      fits =
    let short : ltb 256 (length k) ≡ false = ground arith in
    let room : ltb (length (front ++ zeros n)) (off + 2 + length k + 8) ≡ false =
      ground (arith, length-append front (zeros n), length-zeros n) in
    let key_fits : ltb 65535 (length k) ≡ false = ground arith in
    let front' = front ++ separator_bytes k p in
    let rest = n - separator_size k in
    let ih =
      put_internal_entries_lem keys ptrs front' rest (off + 2 + length k + 8) h
        (omega (arith, length-append front (separator_bytes k p), length-separator_bytes k p))
        (omega arith) in
    let left : rest - separators_size keys ptrs ≡ n - separators_size (k ∷ keys) (p ∷ ptrs) =
      omega arith in
    rw (short, room, key_fits, put_internal_entry_lem front k p n off l)
      (ih
        ∙ ap ok (
            append_assoc front (separator_bytes k p)
              (separators_bytes keys ptrs ++ zeros (rest - separators_size keys ptrs))
            ∙ rw left (
                ap (λ t. front ++ t)
                  (sym (append_assoc (separator_bytes k p) (separators_bytes keys ptrs) _)))))

internal_entry_lem :
    (front k rest : List ℕ) (p off : ℕ)
    → length front ≡ off
    → length k ≤ 256
    → p < 2 ^ 64
    → internal_entry (front ++ (separator_bytes k p ++ rest)) off
      ≡ ok (k, p, off + 2 + length k + 8)
unfolding internal_entry
internal_entry_lem front k rest p off l hk hp =
    let a = be 2 (length k) in
    let c = be 8 p in
    let la = length-be 2 (length k) in
    let lc = length-be 8 p in
    let page = front ++ (separator_bytes k p ++ rest) in
    let e0 : page ≡ front ++ (a ++ (k ++ (c ++ rest))) = simp append_assoc in
    let e1 : page ≡ (front ++ a) ++ (k ++ (c ++ rest)) = simp append_assoc in
    let e2 : page ≡ (front ++ (a ++ k)) ++ (c ++ rest) = simp append_assoc in
    let size_at : slice page off (off + 2) ≡ a =
      slice_middle page front a (k ++ (c ++ rest)) off (off + 2) e0 l (omega (arith, la)) in
    let key : slice page (off + 2) (off + 2 + length k) ≡ k =
      slice_middle page (front ++ a) k (c ++ rest) (off + 2) (off + 2 + length k) e1
        (omega (arith, length-append front a, la)) (omega arith) in
    let pointer : slice page (off + 2 + length k) (off + 2 + length k + 8) ≡ c =
      slice_middle page (front ++ (a ++ k)) c rest (off + 2 + length k) (off + 2 + length k + 8) e2
        (omega (arith, length-append front (a ++ k), length-append a k, la)) (omega (arith, lc)) in
    let size : length page ≡ off + separator_size k + length rest = omega (
      arith,
      length-append front (separator_bytes k p ++ rest),
      length-append (separator_bytes k p) rest,
      length-separator_bytes k p,
    ) in
    let whole_head : ltb (length page) (off + 2) ≡ false = ground (arith, size) in
    let short : ltb 256 (length k) ≡ false = ground arith in
    let whole : ltb (length page) (off + 2 + length k + 8) ≡ false = ground (arith, size) in
    rw (
      size_at,
      of_be-be 2 (length k) (omega arith),
      whole_head,
      short,
      whole,
      key,
      pointer,
      of_be-be 8 p hp,
    )

pub internal_loop_lem :
    (ps : List ℕ) (ks keys : List (List ℕ)) (ptrs front rest : List ℕ) (off : ℕ)
    → AreSeparators keys ptrs
    → length front ≡ off
    → internal_loop (length keys) (front ++ (separators_bytes keys ptrs ++ rest)) off ps ks
      ≡ ok (ps ++ ptrs, ks ++ keys)
unfolding internal_loop
internal_loop_lem ps ks [] [] front rest off h l = rw (append-nil ps, append-nil ks)
internal_loop_lem ps ks [] (p ∷ ptrs) front rest off h l = absurd h
internal_loop_lem ps ks (k ∷ keys) [] front rest off h l = absurd h
internal_loop_lem ps ks (k ∷ keys) (p ∷ ptrs) front rest off (pos_key, small_key, small_ptr, h) l =
    let tail = separators_bytes keys ptrs ++ rest in
    let first : front ++ (separators_bytes (k ∷ keys) (p ∷ ptrs) ++ rest)
        ≡ front ++ (separator_bytes k p ++ tail) =
      ap (λ t. front ++ t) (append_assoc (separator_bytes k p) (separators_bytes keys ptrs) rest) in
    let second : front ++ (separator_bytes k p ++ tail) ≡ (front ++ separator_bytes k p) ++ tail =
      sym (append_assoc front (separator_bytes k p) tail) in
    let end = off + 2 + length k + 8 in
    let ih =
      internal_loop_lem (ps ++ p ∷ []) (ks ++ k ∷ []) keys ptrs (front ++ separator_bytes k p) rest
        end h
        (omega (arith, length-append front (separator_bytes k p), length-separator_bytes k p)) in
    rw (first, internal_entry_lem front k tail p off l small_key small_ptr, second)
      (ih ∙ rw (append_assoc ps (p ∷ []) ptrs, append_assoc ks (k ∷ []) keys))

pub count_bound :
    (keys : List (List ℕ)) (ptrs : List ℕ)
    → AreSeparators keys ptrs
    → 11 * length keys ≤ separators_size keys ptrs
count_bound [] ptrs h = omega arith
count_bound (k ∷ keys) [] h = absurd h
count_bound (k ∷ keys) (p ∷ ptrs) (a, b, c, h) = omega (arith, count_bound keys ptrs h)

pub same_length :
    (keys : List (List ℕ)) (ptrs : List ℕ) → AreSeparators keys ptrs → length ptrs ≡ length keys
same_length [] [] h = refl
same_length [] (p ∷ ptrs) h = absurd h
same_length (k ∷ keys) [] h = absurd h
same_length (k ∷ keys) (p ∷ ptrs) (a, b, c, h) = ap suc (same_length keys ptrs h)

pub length-separators_bytes :
    (keys : List (List ℕ)) (ptrs : List ℕ)
    → AreSeparators keys ptrs
    → length (separators_bytes keys ptrs) ≡ separators_size keys ptrs
length-separators_bytes [] ptrs h = refl
length-separators_bytes (k ∷ keys) [] h = absurd h
length-separators_bytes (k ∷ keys) (p ∷ ptrs) (a, b, c, h) = omega (
  arith,
  length-append (separator_bytes k p) (separators_bytes keys ptrs),
  length-separator_bytes k p,
  length-separators_bytes keys ptrs h,
)
