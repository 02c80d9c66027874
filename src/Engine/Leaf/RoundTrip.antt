-- ===== src/Engine/Leaf/RoundTrip.antt =====
-- A leaf that is written is parsed back.
use hexxladb.Base.{
  ℕ, ◌+◌, ◌-◌, ◌/◌, min, ◌%◌, ◌^◌, ◌≤◌, ◌<◌, ◌≡◌, refl, List, [], ◌∷◌, ◌++◌, arith, length,
  length-append, ltb, ◌==◌, ==_iff, true, false, ok,
}
use hexxladb.Bytes.BigEndian.{of_be-be}
use hexxladb.Bytes.Slices.{bytes_equal_self}
use hexxladb.Engine.Page.{
  is_valid_page_size, valid_page_bounds, btree_kind_leaf, btree_node_magic, uint16_from_int, zeros,
  length-zeros,
}
use hexxladb.Engine.NodeHeader.{
  padded_header, length-padded_header, put_node_header_lem, count_field, next_field, parent_field,
}
use hexxladb.Engine.Leaf.{max_leaf_entries_for_page, leaf_header, parse_leaf_page, build_leaf_page}
use hexxladb.Engine.Leaf.Entries.{
  entry_bytes, entries_bytes, entries_size, AreEntries, length-entry_bytes, put_leaf_entries_lem,
  leaf_loop_lem, count_bound, same_length,
}

-- The page of a leaf.
abbrev leaf_bytes : ℕ → ℕ → ℕ → List (List ℕ) → List (List ℕ) → List ℕ
leaf_bytes page_size parent next keys vals =
    padded_header btree_kind_leaf (length keys) next parent
    ++ (entries_bytes keys vals ++ zeros (page_size - 64 - entries_size keys vals))

length-entries_bytes :
    (keys vals : List (List ℕ))
    → AreEntries keys vals
    → length (entries_bytes keys vals) ≡ entries_size keys vals
length-entries_bytes [] vals h = refl
length-entries_bytes (k ∷ keys) [] h = absurd h
length-entries_bytes (k ∷ keys) (v ∷ vals) (a, b, c, h) = omega (
  arith,
  length-append (entry_bytes k v) (entries_bytes keys vals),
  length-entry_bytes k v,
  length-entries_bytes keys vals h,
)

module _ (page_size parent next : ℕ) (keys vals : List (List ℕ)) (h : AreEntries keys vals) where
  build_leaf_page_lem :
      (4096 ≤ page_size) × (page_size ≤ 65536)
      → 64 + entries_size keys vals ≤ page_size
      → build_leaf_page page_size parent next keys vals
        ≡ ok (leaf_bytes page_size parent next keys vals)
  unfolding build_leaf_page uint16_from_int
  build_leaf_page_lem bounds fits =
      let same : (length keys == length vals) ≡ true = (==_iff _ _).1 (same_length keys vals h) in
      let few : ltb 65535 (length keys) ≡ false = ground (arith, count_bound keys vals h) in
      rw
        (
          same,
          few,
          put_node_header_lem btree_kind_leaf (length keys) next parent page_size (omega arith),
        )
        (put_leaf_entries_lem keys vals (padded_header btree_kind_leaf (length keys) next parent)
          (page_size - 64) 64 h (length-padded_header btree_kind_leaf (length keys) next parent)
          (omega arith))

  length-leaf_bytes :
      64 + entries_size keys vals ≤ page_size
      → length (leaf_bytes page_size parent next keys vals) ≡ page_size
  length-leaf_bytes fits = omega (
    arith,
    length-append (padded_header btree_kind_leaf (length keys) next parent)
        (entries_bytes keys vals ++ zeros (page_size - 64 - entries_size keys vals)),
    length-append (entries_bytes keys vals) (zeros (page_size - 64 - entries_size keys vals)),
    length-zeros (page_size - 64 - entries_size keys vals),
    length-entries_bytes keys vals h,
    length-padded_header btree_kind_leaf (length keys) next parent,
  )

  leaf_header-leaf_bytes :
      is_valid_page_size page_size ≡ true
      → 64 + entries_size keys vals ≤ page_size
      → leaf_header (leaf_bytes page_size parent next keys vals) ≡ ok (length keys)
  unfolding leaf_header max_leaf_entries_for_page
  leaf_header-leaf_bytes valid fits =
      let rest = entries_bytes keys vals ++ zeros (page_size - 64 - entries_size keys vals) in
      let (low, high) = valid_page_bounds page_size valid in
      let same : page_size % 2 ^ 32 ≡ page_size = omega arith in
      let few : ltb (min ((page_size - 64) / 5) 65535) (length keys) ≡ false =
        ground (arith, count_bound keys vals h) in
      rw (
        length-leaf_bytes fits,
        same,
        valid,
        count_field btree_kind_leaf (length keys) next parent rest,
        bytes_equal_self btree_node_magic,
        of_be-be 2 (length keys) (omega (arith, count_bound keys vals h)),
        few,
      )

  parse-leaf_bytes :
      is_valid_page_size page_size ≡ true
      → parent < 2 ^ 64
      → next < 2 ^ 64
      → 64 + entries_size keys vals ≤ page_size
      → parse_leaf_page (leaf_bytes page_size parent next keys vals)
        ≡ ok (record { next = next; parent = parent; keys = keys; vals = vals })
  unfolding parse_leaf_page
  parse-leaf_bytes valid hp hn fits =
      let head = padded_header btree_kind_leaf (length keys) next parent in
      let pad = zeros (page_size - 64 - entries_size keys vals) in
      rw (
        leaf_header-leaf_bytes valid fits,
        leaf_loop_lem [] [] keys vals head pad 64 h
            (length-padded_header btree_kind_leaf (length keys) next parent),
        next_field btree_kind_leaf (length keys) next parent (entries_bytes keys vals ++ pad),
        parent_field btree_kind_leaf (length keys) next parent (entries_bytes keys vals ++ pad),
        of_be-be 8 next hn,
        of_be-be 8 parent hp,
      )

-- For a supported page size, links of 64 bits, and as many values as keys, where keys have 1 to 256
-- bytes, values less than 2 ^ 16, and all entries fit behind the header: buildLeafPage writes a page
-- of that size, and parseLeafPage reads the same leaf from it.
pub parse-build_leaf_page :
    (page_size parent next : ℕ) (keys vals : List (List ℕ))
    → is_valid_page_size page_size ≡ true
    → parent < 2 ^ 64
    → next < 2 ^ 64
    → AreEntries keys vals
    → 64 + entries_size keys vals ≤ page_size
    → (page : List ℕ) × (build_leaf_page page_size parent next keys vals ≡ ok page)
      × (length page ≡ page_size)
      × (parse_leaf_page page
          ≡ ok (record { next = next; parent = parent; keys = keys; vals = vals }))
parse-build_leaf_page page_size parent next keys vals valid hp hn h fits = (
  leaf_bytes page_size parent next keys vals,
  build_leaf_page_lem page_size parent next keys vals h (valid_page_bounds page_size valid) fits,
  length-leaf_bytes page_size parent next keys vals h fits,
  parse-leaf_bytes page_size parent next keys vals h valid hp hn fits,
)
