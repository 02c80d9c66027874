-- ===== src/Engine/FreelistPage.antt =====
-- internal/engine/freelist.go: a page of the freelist, and its round trip.
use hexxladb.Base.{
  ℕ, ◌-◌, ◌*◌, ◌/◌, ◌^◌, ◌≤◌, ◌<◌, ◌≡◌, ◌↔◌, refl, sym, ap, ◌∙◌, List, [], ◌∷◌, ◌++◌, append_assoc,
  true, false, not, ◌&&◌, ◌||◌, arith, length, length-append, ltb, ◌==◌, if◌then◌else◌, Result, ok,
  err,
}
use hexxladb.Bytes.BigEndian.{be, of_be, length-be}
use hexxladb.Bytes.Slices.{codes, slice, bytes_equal, bytes_equal_self}
use hexxladb.Engine.Errors.{
  EngineError, invalid_freelist_page, invalid_freelist_count, invalid_freelist_next,
  too_many_freelist_ids,
}
use hexxladb.Engine.Page.{is_valid_page_size, valid_page_bounds, zeros, length-zeros, skip_zeros}
use hexxladb.Engine.Words.{
  put_all, put_words, get_words, fields_bytes, words_bytes, AreAdjacent, AllWords, put_all_lem,
  put_words_lem, get_words_lem, length-words_bytes, number_at, array_at, length-fields_bytes,
}

-- freelistPageMagic
abbrev pub freelist_page_magic : List ℕ
freelist_page_magic = codes "HXFREE01"

-- freelistPageHeaderSize
abbrev pub freelist_page_header_size : ℕ
freelist_page_header_size = 32

-- freelistPageCapacity, for a page that has a header.
abbrev pub freelist_page_capacity : ℕ → ℕ
freelist_page_capacity page_size = (page_size - freelist_page_header_size) / 8

-- decodeFreelistPage: the next page, its generation, and the ids.
unfoldable pub decode_freelist_page : List ℕ → Result EngineError (ℕ × ℕ × List ℕ)
decode_freelist_page page =
    let count = of_be (slice page 8 10) in
    let next_id = of_be (slice page 16 24) in
    let next_generation = of_be (slice page 24 32) in
    let one_zero =
      ((next_id == 0) && not (next_generation == 0))
      || (not (next_id == 0) && (next_generation == 0)) in
    let ids = get_words count page freelist_page_header_size 0 in
    if ltb (length page) freelist_page_header_size
      || not (bytes_equal (slice page 0 8) freelist_page_magic)
    then err invalid_freelist_page
    else if ltb (freelist_page_capacity (length page)) count
    then err invalid_freelist_count
    else if one_zero
    then err invalid_freelist_next
    else ok (next_id, next_generation, ids)

-- encodeFreelistPage
unfoldable pub encode_freelist_page : ℕ → List ℕ → ℕ → ℕ → Result EngineError (List ℕ)
encode_freelist_page page_size ids next_id next_generation =
    let counted =
      put_all (zeros page_size) ((0, freelist_page_magic) ∷ (8, be 2 (length ids)) ∷ []) in
    let linked = put_all counted ((16, be 8 next_id) ∷ (24, be 8 next_generation) ∷ []) in
    if ltb (freelist_page_capacity page_size) (length ids)
    then err too_many_freelist_ids
    else ok (put_words linked freelist_page_header_size 0 ids)

-- The header of the page with the bytes that stay zero.
abbrev pub freelist_fields : List ℕ → ℕ → ℕ → List (ℕ × List ℕ)
freelist_fields ids next_id next_generation =
    (0, freelist_page_magic)
    ∷ (8, be 2 (length ids))
    ∷ (10, zeros 6)
    ∷ (16, be 8 next_id)
    ∷ (24, be 8 next_generation)
    ∷ []

module _ (page_size : ℕ) (ids : List ℕ) (next_id next_generation : ℕ) where
  unfoldable pub freelist_pad : List ℕ
  freelist_pad = words_bytes ids ++ zeros (page_size - 32 - 8 * length ids)

  adjacent : AreAdjacent 0 (freelist_fields ids next_id next_generation)
  adjacent = (
    refl,
    (
      refl,
      (omega (arith, length-be 2 (length ids)), (refl, (omega (arith, length-be 8 next_id), tt))),
    ),
  )

  fields_size : length (fields_bytes (freelist_fields ids next_id next_generation)) ≡ 32
  fields_size = omega (
    arith,
    length-fields_bytes (freelist_fields ids next_id next_generation) 0 adjacent,
    length-be 8 next_generation,
  )

  unfoldable pub page_of : List ℕ
  page_of = fields_bytes (freelist_fields ids next_id next_generation) ++ freelist_pad

  pub encode_freelist_page_lem :
      40 ≤ page_size
      → length ids ≤ freelist_page_capacity page_size
      → encode_freelist_page page_size ids next_id next_generation ≡ ok page_of
  unfolding encode_freelist_page page_of freelist_pad
  encode_freelist_page_lem large fits =
      let room : ltb ((page_size - 32) / 8) (length ids) ≡ false = ground arith in
      let la = length-be 2 (length ids) in
      let first_writes : List (ℕ × List ℕ) =
        (0, freelist_page_magic) ∷ (8, be 2 (length ids)) ∷ [] in
      let link_writes : List (ℕ × List ℕ) = (16, be 8 next_id) ∷ (24, be 8 next_generation) ∷ [] in
      let counted = freelist_page_magic ++ (be 2 (length ids) ++ []) in
      let counted_size : length counted ≡ 10 = omega (
        arith,
        length-append freelist_page_magic (be 2 (length ids) ++ []),
        length-append (be 2 (length ids)) [],
        la,
      ) in
      let linked = be 8 next_id ++ (be 8 next_generation ++ []) in
      let linked_size : length linked ≡ 16 = omega (
        arith,
        length-append (be 8 next_id) (be 8 next_generation ++ []),
        length-append (be 8 next_generation) [],
        length-be 8 next_id,
        length-be 8 next_generation,
      ) in
      let kept = page_size - length counted in
      let first = put_all_lem first_writes [] page_size 0 refl (refl, (refl, tt)) in
      let skip =
        ap (λ z. counted ++ z) (skip_zeros 6 kept (omega (arith, counted_size)))
        ∙ sym (append_assoc counted (zeros 6) (zeros (kept - 6))) in
      let second =
        put_all_lem link_writes (counted ++ zeros 6) (kept - 6) 16
          (omega (arith, length-append counted (zeros 6), counted_size))
          (refl, (omega (arith, length-be 8 next_id), tt)) in
      let front = (counted ++ zeros 6) ++ linked in
      let third = put_words_lem ids front (kept - 6 - length linked) 32 0 (
        omega (
          arith,
          length-append (counted ++ zeros 6) linked,
          length-append counted (zeros 6),
          counted_size,
          linked_size,
        )) in
      let left : kept - 6 - length linked - 8 * length ids ≡ page_size - 32 - 8 * length ids =
        omega (arith, counted_size, linked_size) in
      let regroup : (front ++ words_bytes ids) ++ zeros (page_size - 32 - 8 * length ids)
          ≡ page_of =
        simp append_assoc in
      rw room (
        ap ok (
          ap (λ c. put_words (put_all c link_writes) 32 0 ids) (first ∙ skip)
          ∙ ap (λ c. put_words c 32 0 ids) second
          ∙ third
          ∙ ap (λ n. (front ++ words_bytes ids) ++ zeros n) left
          ∙ regroup))

  pub length-page_of :
      40 ≤ page_size → length ids ≤ freelist_page_capacity page_size → length page_of ≡ page_size
  unfolding page_of freelist_pad
  length-page_of large fits = omega (
    arith,
    length-append (fields_bytes (freelist_fields ids next_id next_generation))
        (words_bytes ids ++ zeros (page_size - 32 - 8 * length ids)),
    length-append (words_bytes ids) (zeros (page_size - 32 - 8 * length ids)),
    length-zeros (page_size - 32 - 8 * length ids),
    length-words_bytes ids,
    fields_size,
  )

  pub decode-page_of :
      is_valid_page_size page_size ≡ true
      → length ids ≤ freelist_page_capacity page_size
      → AllWords ids
      → next_id < 2 ^ 64
      → next_generation < 2 ^ 64
      → (next_id ≡ 0) ↔ (next_generation ≡ 0)
      → decode_freelist_page page_of ≡ ok (next_id, next_generation, ids)
  unfolding decode_freelist_page page_of freelist_pad
  decode-page_of valid fits words small_next small_generation linked =
      let fields = freelist_fields ids next_id next_generation in
      let (low, high) = valid_page_bounds page_size valid in
      let size : length (fields_bytes fields ++ freelist_pad) ≡ page_size =
        length-page_of (omega arith) fits in
      let long : ltb page_size 32 ≡ false = ground arith in
      let magic : slice (fields_bytes fields ++ freelist_pad) 0 8 ≡ freelist_page_magic =
        array_at fields 0 8 freelist_pad adjacent (omega arith) refl in
      let counted : of_be (slice (fields_bytes fields ++ freelist_pad) 8 10) ≡ length ids =
        number_at fields 1 2 (length ids) freelist_pad adjacent (omega arith) refl (omega arith) in
      let next : of_be (slice (fields_bytes fields ++ freelist_pad) 16 24) ≡ next_id =
        number_at fields 3 8 next_id freelist_pad adjacent (omega arith) refl small_next in
      let generation : of_be (slice (fields_bytes fields ++ freelist_pad) 24 32) ≡ next_generation =
        number_at fields 4 8 next_generation freelist_pad adjacent (omega arith) refl
          small_generation in
      let stored_ids : get_words (length ids) (fields_bytes fields ++ freelist_pad) 32 0 ≡ ids =
        get_words_lem ids (fields_bytes fields) (zeros (page_size - 32 - 8 * length ids)) 32 0
          fields_size words in
      let room : ltb ((page_size - 32) / 8) (length ids) ≡ false = ground arith in
      let both : (((next_id == 0) && not (next_generation == 0))
            || (not (next_id == 0) && (next_generation == 0)))
          ≡ false =
        ground (arith, linked) in
      rw (
        size,
        long,
        magic,
        bytes_equal_self freelist_page_magic,
        counted,
        room,
        next,
        generation,
        both,
        stored_ids,
      )

-- For a supported page size, no more ids than fit, ids and links of 64 bits, and a generation of zero
-- exactly where there is no next page: encodeFreelistPage writes a page of that size, and
-- decodeFreelistPage reads the same links and ids from it.
pub decode-encode_freelist_page :
    (page_size : ℕ) (ids : List ℕ) (next_id next_generation : ℕ)
    → is_valid_page_size page_size ≡ true
    → length ids ≤ freelist_page_capacity page_size
    → AllWords ids
    → next_id < 2 ^ 64
    → next_generation < 2 ^ 64
    → (next_id ≡ 0) ↔ (next_generation ≡ 0)
    → (page : List ℕ) × (encode_freelist_page page_size ids next_id next_generation ≡ ok page)
      × (length page ≡ page_size)
      × (decode_freelist_page page ≡ ok (next_id, next_generation, ids))
decode-encode_freelist_page page_size ids next_id next_generation valid fits words small_next
      small_generation linked =
    let large : 40 ≤ page_size = omega (arith, valid_page_bounds page_size valid) in
    (
      page_of page_size ids next_id next_generation,
      encode_freelist_page_lem page_size ids next_id next_generation large fits,
      length-page_of page_size ids next_id next_generation large fits,
      decode-page_of page_size ids next_id next_generation valid fits words small_next
          small_generation linked,
    )
