-- ===== src/Engine/Leaf.antt =====
-- internal/engine/btree_page.go: leaf pages, their parser, the lookup that reads a page in place, and
-- the writer.
pub mod Lookup
pub mod Entries
pub mod RoundTrip
use hexxladb.Base.{
  ℕ, zero, suc, ◌+◌, ◌-◌, ◌/◌, ◌%◌, ◌^◌, min, List, [], ◌∷◌, ◌++◌, Option, none, some, Bool, not,
  length, get_or, ltb, ◌==◌, if◌then◌else◌, Result, ok, err, ◌>>=◌,
}
use hexxladb.Bytes.BigEndian.{be, of_be}
use hexxladb.Bytes.Slices.{slice, bytes_equal}
use hexxladb.Engine.Errors.{
  EngineError, bad_page_len, node_magic, node_version, node_kind, node_nkeys, leaf_truncated,
  leaf_key_len, leaf_payload, leaf_kv_mismatch, leaf_page_full, key_too_large,
}
use hexxladb.Engine.Page.{
  is_valid_page_size, btree_node_magic, btree_version, btree_kind_leaf, btree_header_size,
  max_key_bytes, uint16_from_int, put, zeros,
}

-- leafData
pub record LeafData : Type 0 where
  pub next : ℕ
  pub parent : ℕ
  pub keys : List (List ℕ)
  pub vals : List (List ℕ)

-- maxLeafEntriesForPage
unfoldable pub max_leaf_entries_for_page : ℕ → ℕ
max_leaf_entries_for_page page_size = min ((page_size - btree_header_size) / 5) 65535

-- The checks at the start of parseLeafPage and of lookupLeafValue: the number of entries.
unfoldable pub leaf_header : List ℕ → Result EngineError ℕ
leaf_header page =
    let n = of_be (slice page 6 8) in
    if not (is_valid_page_size (length page % 2 ^ 32))
    then err bad_page_len
    else if not (bytes_equal (slice page 0 4) btree_node_magic)
    then err node_magic
    else if not (get_or page 4 0 == btree_version)
    then err node_version
    else if not (get_or page 5 0 == btree_kind_leaf)
    then err node_kind
    else if ltb (max_leaf_entries_for_page (length page)) n
    then err node_nkeys
    else ok n

-- The entry at off, which both loops read in the same way: key, value, and the offset behind it.
unfoldable pub leaf_entry : List ℕ → ℕ → Result EngineError (List ℕ × List ℕ × ℕ)
leaf_entry page off =
    let kl = of_be (slice page off (off + 2)) in
    let vl = of_be (slice page (off + 2) (off + 4)) in
    let at = off + 4 in
    if ltb (length page) (off + 4)
    then err leaf_truncated
    else if ltb max_key_bytes kl
    then err leaf_key_len
    else if ltb (length page) (at + kl + vl)
    then err leaf_payload
    else ok (slice page at (at + kl), slice page (at + kl) (at + kl + vl), at + kl + vl)

-- The loop of parseLeafPage with the rounds that are left.
unfoldable pub leaf_loop :
    ℕ
    → List ℕ
    → ℕ
    → List (List ℕ)
    → List (List ℕ)
    → Result EngineError (List (List ℕ) × List (List ℕ))
leaf_loop zero page off keys vals = ok (keys, vals)
leaf_loop (suc rounds) page off keys vals =
    leaf_entry page off >>= λ e. leaf_loop rounds page e.2 (keys ++ e.0 ∷ []) (vals ++ e.1 ∷ [])

-- The result of parseLeafPage.
abbrev pub leaf_of : List ℕ → List (List ℕ) × List (List ℕ) → LeafData
leaf_of page kv = record {
  next = of_be (slice page 8 16);
  parent = of_be (slice page 16 24);
  keys = kv.0;
  vals = kv.1;
}

-- parseLeafPage
unfoldable pub parse_leaf_page : List ℕ → Result EngineError LeafData
parse_leaf_page page = do
  n ← leaf_header page
  kv ← leaf_loop n page btree_header_size [] []
  ok (leaf_of page kv)

-- The loop of lookupLeafValue: the last entry with the key wins.
unfoldable pub lookup_leaf_loop :
    ℕ → List ℕ → ℕ → List ℕ → Option (List ℕ) → Result EngineError (Option (List ℕ))
lookup_leaf_loop zero page off key found = ok found
lookup_leaf_loop (suc rounds) page off key found = leaf_entry page off >>= λ e.
    lookup_leaf_loop rounds page e.2 key (if bytes_equal e.0 key then some e.1 else found)

-- lookupLeafValue: `none` for a value of nil. A value in the page is not nil, even if it is empty.
unfoldable pub lookup_leaf_value : List ℕ → List ℕ → Result EngineError (Option (List ℕ))
lookup_leaf_value page key = do
  n ← leaf_header page
  lookup_leaf_loop n page btree_header_size key none

-- The writes of one entry in buildLeafPage.
unfoldable pub put_leaf_entry : List ℕ → ℕ → List ℕ → List ℕ → ℕ → ℕ → List ℕ
put_leaf_entry page off k v kl vl =
    let with_kl = put page off (be 2 kl) in
    let with_vl = put with_kl (off + 2) (be 2 vl) in
    let with_key = put with_vl (off + 4) k in put with_key (off + 4 + length k) v

-- The loop of buildLeafPage.
unfoldable pub put_leaf_entries :
    List ℕ → ℕ → List (List ℕ) → List (List ℕ) → Result EngineError (List ℕ)
put_leaf_entries page off [] vals = ok page
put_leaf_entries page off (k ∷ keys) [] = ok page
put_leaf_entries page off (k ∷ keys) (v ∷ vals) =
    if ltb max_key_bytes (length k)
    then err key_too_large
    else if ltb (length page) (off + 4 + length k + length v)
    then err leaf_page_full
    else (uint16_from_int (length k) >>= λ kl. uint16_from_int (length v) >>= λ vl.
        put_leaf_entries (put_leaf_entry page off k v kl vl) (off + 4 + length k + length v) keys
          vals)

-- The writes of buildLeafPage into the header of the page.
unfoldable pub put_node_header : List ℕ → ℕ → ℕ → ℕ → ℕ → List ℕ
put_node_header page kind nk next parent =
    let with_magic = put page 0 btree_node_magic in
    let with_version = put with_magic 4 (btree_version ∷ []) in
    let with_kind = put with_version 5 (kind ∷ []) in
    let with_nk = put with_kind 6 (be 2 nk) in
    let with_next = put with_nk 8 (be 8 next) in put with_next 16 (be 8 parent)

-- buildLeafPage
unfoldable pub build_leaf_page :
    ℕ → ℕ → ℕ → List (List ℕ) → List (List ℕ) → Result EngineError (List ℕ)
build_leaf_page page_size parent next keys vals =
    if not (length keys == length vals)
    then err leaf_kv_mismatch
    else (uint16_from_int (length keys) >>= λ nk.
        put_leaf_entries (put_node_header (zeros page_size) btree_kind_leaf nk next parent)
          btree_header_size keys vals)
