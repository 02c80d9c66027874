-- ===== src/Engine/Internal.antt =====
-- internal/engine/btree_page.go: internal pages, their parser, the lookup that reads a page in place,
-- and the writer.
pub mod Lookup
pub mod Entries
pub mod RoundTrip
use hexxladb.Base.{
  ℕ, zero, suc, ◌+◌, ◌-◌, ◌/◌, ◌%◌, ◌^◌, min, List, [], ◌∷◌, ◌++◌, Bool, true, false, not, ◌&&◌,
  length, get_or, search, ltb, ◌==◌, if◌then◌else◌, Result, ok, err, ◌>>=◌,
}
use hexxladb.Bytes.BigEndian.{be, of_be}
use hexxladb.Bytes.Order.{bytes_lt}
use hexxladb.Bytes.Slices.{slice, bytes_equal}
use hexxladb.Engine.Errors.{
  EngineError, bad_page_len, node_magic, node_version, node_kind, node_nkeys, internal_ptr0,
  internal_key_len, internal_key, internal_key_data, internal_ptr_key_mismatch, internal_page_full,
  key_too_large,
}
use hexxladb.Engine.Page.{
  is_valid_page_size, btree_node_magic, btree_version, btree_kind_internal, btree_header_size,
  max_key_bytes, uint16_from_int, put, zeros,
}
use hexxladb.Engine.Leaf.{put_node_header}

-- internalData
pub record InternalData : Type 0 where
  pub parent : ℕ
  pub ptrs : List ℕ
  pub keys : List (List ℕ)

-- maxInternalKeysForPage
unfoldable pub max_internal_keys_for_page : ℕ → ℕ
max_internal_keys_for_page page_size = min ((page_size - btree_header_size - 8) / 11) 65535

-- The checks at the start of parseInternalPage and of lookupInternalChild, with that of ptr0: the
-- number of keys.
unfoldable pub internal_header : List ℕ → Result EngineError ℕ
internal_header page =
    let n = of_be (slice page 6 8) in
    if not (is_valid_page_size (length page % 2 ^ 32))
    then err bad_page_len
    else if not (bytes_equal (slice page 0 4) btree_node_magic)
    then err node_magic
    else if not (get_or page 4 0 == btree_version)
    then err node_version
    else if not (get_or page 5 0 == btree_kind_internal)
    then err node_kind
    else if ltb (max_internal_keys_for_page (length page)) n
    then err node_nkeys
    else if ltb (length page) (btree_header_size + 8)
    then err internal_ptr0
    else ok n

-- ptr0
abbrev pub ptr_0 : List ℕ → ℕ
ptr_0 page = of_be (slice page btree_header_size (btree_header_size + 8))

-- The key and the pointer at off, which both loops read in the same way, and the offset behind them.
unfoldable pub internal_entry : List ℕ → ℕ → Result EngineError (List ℕ × ℕ × ℕ)
internal_entry page off =
    let kl = of_be (slice page off (off + 2)) in
    let at = off + 2 in
    if ltb (length page) (off + 2)
    then err internal_key_len
    else if ltb max_key_bytes kl
    then err internal_key
    else if ltb (length page) (at + kl + 8)
    then err internal_key_data
    else ok (slice page at (at + kl), of_be (slice page (at + kl) (at + kl + 8)), at + kl + 8)

-- The loop of parseInternalPage with the rounds that are left.
unfoldable pub internal_loop :
    ℕ → List ℕ → ℕ → List ℕ → List (List ℕ) → Result EngineError (List ℕ × List (List ℕ))
internal_loop zero page off ptrs keys = ok (ptrs, keys)
internal_loop (suc rounds) page off ptrs keys = internal_entry page off >>= λ e.
    internal_loop rounds page e.2 (ptrs ++ e.1 ∷ []) (keys ++ e.0 ∷ [])

-- The result of parseInternalPage.
abbrev pub internal_of : List ℕ → List ℕ × List (List ℕ) → InternalData
internal_of page pk = record { parent = of_be (slice page 16 24); ptrs = pk.0; keys = pk.1 }

-- parseInternalPage
unfoldable pub parse_internal_page : List ℕ → Result EngineError InternalData
parse_internal_page page = do
  n ← internal_header page
  pk ← internal_loop n page (btree_header_size + 8) (ptr_0 page ∷ []) []
  ok (internal_of page pk)

-- One choice of lookupInternalChild: the child so far, and chooseRight.
abbrev pub choose : List ℕ → ℕ × Bool → List ℕ → ℕ → ℕ × Bool
choose key (child, choose_right) separator pointer =
    if choose_right && not (bytes_lt key separator) then (pointer, choose_right) else (child, false)

-- The loop of lookupInternalChild.
unfoldable pub lookup_internal_loop : ℕ → List ℕ → ℕ → List ℕ → ℕ × Bool → Result EngineError ℕ
lookup_internal_loop zero page off key chosen = ok chosen.0
lookup_internal_loop (suc rounds) page off key chosen = internal_entry page off >>= λ e.
    lookup_internal_loop rounds page e.2 key (choose key chosen e.0 e.1)

-- lookupInternalChild
unfoldable pub lookup_internal_child : List ℕ → List ℕ → Result EngineError ℕ
lookup_internal_child page key = do
  n ← internal_header page
  lookup_internal_loop n page (btree_header_size + 8) key (ptr_0 page, true)

-- internalPickChild
unfoldable pub internal_pick_child : List (List ℕ) → List ℕ → ℕ
internal_pick_child keys key = search (length keys) (λ j. bytes_lt key (get_or keys j []))

-- leafKeyIndex
unfoldable pub leaf_key_index : List (List ℕ) → List ℕ → ℕ
leaf_key_index keys key = search (length keys) (λ i. not (bytes_lt (get_or keys i []) key))

-- The writes of one key and its pointer in buildInternalPage.
unfoldable pub put_internal_entry : List ℕ → ℕ → List ℕ → ℕ → ℕ → List ℕ
put_internal_entry page off k kl pointer =
    let with_kl = put page off (be 2 kl) in
    let with_key = put with_kl (off + 2) k in put with_key (off + 2 + length k) (be 8 pointer)

-- The loop of buildInternalPage over the keys and the pointers to their right.
unfoldable pub put_internal_entries :
    List ℕ → ℕ → List (List ℕ) → List ℕ → Result EngineError (List ℕ)
put_internal_entries page off [] ptrs = ok page
put_internal_entries page off (k ∷ keys) [] = ok page
put_internal_entries page off (k ∷ keys) (p ∷ ptrs) =
    if ltb max_key_bytes (length k)
    then err key_too_large
    else if ltb (length page) (off + 2 + length k + 8)
    then err internal_page_full
    else (uint16_from_int (length k) >>= λ kl.
        put_internal_entries (put_internal_entry page off k kl p) (off + 2 + length k + 8) keys
          ptrs)

-- buildInternalPage; there is a first pointer where the lengths fit.
unfoldable pub build_internal_page : ℕ → ℕ → List ℕ → List (List ℕ) → Result EngineError (List ℕ)
build_internal_page page_size parent [] keys = err internal_ptr_key_mismatch
build_internal_page page_size parent (p ∷ ptrs) keys =
    if not (length ptrs + 1 == length keys + 1)
    then err internal_ptr_key_mismatch
    else (uint16_from_int (length keys) >>= λ nk.
        let header = put_node_header (zeros page_size) btree_kind_internal nk 0 parent in
        put_internal_entries (put header btree_header_size (be 8 p)) (btree_header_size + 8) keys
          ptrs)
