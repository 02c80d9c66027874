-- ===== src/Engine/Internal/RoundTrip.antt =====
-- An internal page that is written is parsed back.
use hexxladb.Base.{
  ℕ, ◌+◌, ◌-◌, ◌/◌, min, ◌%◌, ◌^◌, ◌≤◌, ◌<◌, ◌≡◌, sym, ap, ◌∙◌, List, [], ◌∷◌, ◌++◌, append_assoc,
  arith, length, length-append, ltb, ◌==◌, ==_iff, true, false, ok,
}
use hexxladb.Bytes.BigEndian.{be, of_be, length-be, of_be-be}
use hexxladb.Bytes.Slices.{slice, bytes_equal_self, slice_middle}
use hexxladb.Engine.Page.{
  is_valid_page_size, valid_page_bounds, btree_kind_internal, btree_node_magic, uint16_from_int,
  put_next, zeros, length-zeros,
}
use hexxladb.Engine.NodeHeader.{
  padded_header, length-padded_header, put_node_header_lem, count_field, parent_field,
}
use hexxladb.Engine.Internal.{
  max_internal_keys_for_page, internal_header, parse_internal_page, build_internal_page, ptr_0,
}
use hexxladb.Engine.Internal.Entries.{
  separators_bytes, separators_size, AreSeparators, put_internal_entries_lem, internal_loop_lem,
  count_bound, same_length, length-separators_bytes,
}

-- The header of an internal page and its first pointer.
abbrev head_bytes : ℕ → ℕ → ℕ → List ℕ
head_bytes nk parent p = padded_header btree_kind_internal nk 0 parent ++ be 8 p

-- The page.
abbrev internal_bytes : ℕ → ℕ → ℕ → List ℕ → List (List ℕ) → List ℕ
internal_bytes page_size parent p ptrs keys =
    head_bytes (length keys) parent p
    ++ (separators_bytes keys ptrs ++ zeros (page_size - 72 - separators_size keys ptrs))

module _ (page_size parent p : ℕ) (ptrs : List ℕ) (keys : List (List ℕ))
    (h : AreSeparators keys ptrs) where
  length-head_bytes : length (head_bytes (length keys) parent p) ≡ 72
  length-head_bytes = omega (
    arith,
    length-append (padded_header btree_kind_internal (length keys) 0 parent) (be 8 p),
    length-padded_header btree_kind_internal (length keys) 0 parent,
    length-be 8 p,
  )

  build_internal_page_lem :
      (4096 ≤ page_size) × (page_size ≤ 65536)
      → 72 + separators_size keys ptrs ≤ page_size
      → build_internal_page page_size parent (p ∷ ptrs) keys
        ≡ ok (internal_bytes page_size parent p ptrs keys)
  unfolding build_internal_page uint16_from_int
  build_internal_page_lem bounds fits =
      let head = padded_header btree_kind_internal (length keys) 0 parent in
      let same : (length ptrs + 1 == length keys + 1) ≡ true =
        (==_iff _ _).1 (ap (λ n. n + 1) (same_length keys ptrs h)) in
      let few : ltb 65535 (length keys) ≡ false = ground (arith, count_bound keys ptrs h) in
      let rest : page_size - 64 - length (be 8 p) ≡ page_size - 72 = omega (arith, length-be 8 p) in
      rw
        (
          same,
          few,
          put_node_header_lem btree_kind_internal (length keys) 0 parent page_size (omega arith),
          put_next head (be 8 p) (page_size - 64) 64
              (length-padded_header btree_kind_internal (length keys) 0 parent),
          rest,
        )
        (put_internal_entries_lem keys ptrs (head_bytes (length keys) parent p) (page_size - 72) 72
          h length-head_bytes (omega arith))

  length-internal_bytes :
      72 + separators_size keys ptrs ≤ page_size
      → length (internal_bytes page_size parent p ptrs keys) ≡ page_size
  length-internal_bytes fits = omega (
    arith,
    length-append (head_bytes (length keys) parent p)
        (separators_bytes keys ptrs ++ zeros (page_size - 72 - separators_size keys ptrs)),
    length-append (separators_bytes keys ptrs) (zeros (page_size - 72 - separators_size keys ptrs)),
    length-zeros (page_size - 72 - separators_size keys ptrs),
    length-separators_bytes keys ptrs h,
    length-head_bytes,
  )

  -- The page as the readers of the header see it.
  from_header :
      internal_bytes page_size parent p ptrs keys
      ≡ padded_header btree_kind_internal (length keys) 0 parent
        ++ (be 8 p
            ++ (separators_bytes keys ptrs ++ zeros (page_size - 72 - separators_size keys ptrs)))
  from_header = append_assoc (padded_header btree_kind_internal (length keys) 0 parent) (be 8 p) _

  internal_header-internal_bytes :
      is_valid_page_size page_size ≡ true
      → 72 + separators_size keys ptrs ≤ page_size
      → internal_header (internal_bytes page_size parent p ptrs keys) ≡ ok (length keys)
  unfolding internal_header max_internal_keys_for_page
  internal_header-internal_bytes valid fits =
      let rest =
        be 8 p
        ++ (separators_bytes keys ptrs ++ zeros (page_size - 72 - separators_size keys ptrs)) in
      let (low, high) = valid_page_bounds page_size valid in
      let same : page_size % 2 ^ 32 ≡ page_size = omega arith in
      let few : ltb (min ((page_size - 64 - 8) / 11) 65535) (length keys) ≡ false =
        ground (arith, count_bound keys ptrs h) in
      let room : ltb page_size 72 ≡ false = ground arith in
      let size : length (padded_header btree_kind_internal (length keys) 0 parent ++ rest)
          ≡ page_size =
        ap length (sym from_header) ∙ length-internal_bytes fits in
      ap internal_header from_header
      ∙ rw (
        size,
        same,
        valid,
        count_field btree_kind_internal (length keys) 0 parent rest,
        bytes_equal_self btree_node_magic,
        of_be-be 2 (length keys) (omega (arith, count_bound keys ptrs h)),
        few,
        room,
      )

  ptr_0-internal_bytes : p < 2 ^ 64 → ptr_0 (internal_bytes page_size parent p ptrs keys) ≡ p
  ptr_0-internal_bytes hp =
      let rest = separators_bytes keys ptrs ++ zeros (page_size - 72 - separators_size keys ptrs) in
      ap of_be (
        slice_middle _ (padded_header btree_kind_internal (length keys) 0 parent) (be 8 p) rest 64
          72 from_header (length-padded_header btree_kind_internal (length keys) 0 parent)
          (omega (arith, length-be 8 p)))
      ∙ of_be-be 8 p hp

  parent-internal_bytes :
      parent < 2 ^ 64 → of_be (slice (internal_bytes page_size parent p ptrs keys) 16 24) ≡ parent
  parent-internal_bytes hp =
      let rest =
        be 8 p
        ++ (separators_bytes keys ptrs ++ zeros (page_size - 72 - separators_size keys ptrs)) in
      ap (λ b. of_be (slice b 16 24)) from_header
      ∙ ap of_be (parent_field btree_kind_internal (length keys) 0 parent rest)
      ∙ of_be-be 8 parent hp

  parse-internal_bytes :
      is_valid_page_size page_size ≡ true
      → parent < 2 ^ 64
      → p < 2 ^ 64
      → 72 + separators_size keys ptrs ≤ page_size
      → parse_internal_page (internal_bytes page_size parent p ptrs keys)
        ≡ ok (record { parent = parent; ptrs = p ∷ ptrs; keys = keys })
  unfolding parse_internal_page
  parse-internal_bytes valid hp h0 fits =
      let pad = zeros (page_size - 72 - separators_size keys ptrs) in
      rw (
        internal_header-internal_bytes valid fits,
        ptr_0-internal_bytes h0,
        internal_loop_lem (p ∷ []) [] keys ptrs (head_bytes (length keys) parent p) pad 72 h
            length-head_bytes,
        parent-internal_bytes hp,
      )

-- For a supported page size, a parent and pointers of 64 bits, and one pointer more than keys, where
-- keys have 1 to 256 bytes and all fit behind the header: buildInternalPage writes a page of that
-- size, and parseInternalPage reads the same pointers and keys from it.
pub parse-build_internal_page :
    (page_size parent p : ℕ) (ptrs : List ℕ) (keys : List (List ℕ))
    → is_valid_page_size page_size ≡ true
    → parent < 2 ^ 64
    → p < 2 ^ 64
    → AreSeparators keys ptrs
    → 72 + separators_size keys ptrs ≤ page_size
    → (page : List ℕ) × (build_internal_page page_size parent (p ∷ ptrs) keys ≡ ok page)
      × (length page ≡ page_size)
      × (parse_internal_page page ≡ ok (record { parent = parent; ptrs = p ∷ ptrs; keys = keys }))
parse-build_internal_page page_size parent p ptrs keys valid hp h0 h fits = (
  internal_bytes page_size parent p ptrs keys,
  build_internal_page_lem page_size parent p ptrs keys h (valid_page_bounds page_size valid) fits,
  length-internal_bytes page_size parent p ptrs keys h fits,
  parse-internal_bytes page_size parent p ptrs keys h valid hp h0 fits,
)
