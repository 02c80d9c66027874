-- ===== src/Tests/Pages.antt =====
-- Tests of the pages of internal/engine: B-tree nodes, the header, and pages of the freelist.
use hexxladb.Base.{
  ℕ, subst, sym, ◌∙◌, ap, ok_path, search, search_loop, zero, suc, ◌^◌, ◌≤◌, ◌+◌, ◌≡◌, refl, arith,
  List, [], ◌∷◌, ◌++◌, true, length, get_or, none, ok, ◌>>=◌,
}
use hexxladb.Bytes.Order.{bytes_compare}
use hexxladb.Engine.Page.{is_valid_page_size, zeros}
use hexxladb.Engine.Words.{AllWords}
use hexxladb.Engine.NodeHeader.{padded_header}
use hexxladb.Engine.Leaf.{parse_leaf_page, build_leaf_page, lookup_leaf_value}
use hexxladb.Engine.Leaf.Entries.{entries_bytes}
use hexxladb.Engine.Leaf.Lookup.{last_value, lookup_leaf_value-parse}
use hexxladb.Engine.Leaf.RoundTrip.{parse-build_leaf_page}
use hexxladb.Engine.Internal.{
  InternalData, parse_internal_page, build_internal_page, lookup_internal_child,
  internal_pick_child,
}
use hexxladb.Engine.Internal.Lookup.{AreAscending, lookup_internal_child-parse}
use hexxladb.Engine.Internal.RoundTrip.{parse-build_internal_page}
use hexxladb.Engine.Header.{
  Header, encode_header_page, decode_header_page, authenticate_header, verify_header_authentication,
}
use hexxladb.Engine.Header.RoundTrip.{IsHeader, verify-decode-authenticate_header}
use hexxladb.Engine.FreelistPage.{
  encode_freelist_page, decode_freelist_page, decode-encode_freelist_page,
}
use hexxladb.Engine.Pager.{page_byte_offset, page_byte_offset_apart}

valid_4096 : is_valid_page_size 4096 ≡ true
unfolding is_valid_page_size
valid_4096 = refl

abbrev two_keys : List (List ℕ)
two_keys = (1 ∷ []) ∷ (2 ∷ 3 ∷ []) ∷ []

abbrev two_values : List (List ℕ)
two_values = (9 ∷ []) ∷ [] ∷ []

abbrev two_entries : List ℕ
two_entries = padded_header 1 2 0 0 ++ (entries_bytes two_keys two_values ++ zeros 4018)

lookup_leaf_value-parse_example :
    lookup_leaf_value two_entries (2 ∷ 3 ∷ [])
    ≡ (parse_leaf_page two_entries >>= λ d. ok (last_value (2 ∷ 3 ∷ []) none d.keys d.vals))
lookup_leaf_value-parse_example = lookup_leaf_value-parse two_entries (2 ∷ 3 ∷ [])

parse-build_leaf_page_example :
    (page : List ℕ) × (build_leaf_page 4096 5 7 two_keys two_values ≡ ok page)
    × (length page ≡ 4096)
    × (parse_leaf_page page
        ≡ ok (record { next = 7; parent = 5; keys = two_keys; vals = two_values }))
parse-build_leaf_page_example =
    parse-build_leaf_page 4096 5 7 two_keys two_values valid_4096 (omega arith) (omega arith)
      (omega arith, omega arith, omega arith, (omega arith, omega arith, omega arith, tt))
      (omega arith)

parse-build_internal_page_example :
    (page : List ℕ) × (build_internal_page 4096 5 (7 ∷ 8 ∷ 9 ∷ []) two_keys ≡ ok page)
    × (length page ≡ 4096)
    × (parse_internal_page page
        ≡ ok (record { parent = 5; ptrs = 7 ∷ 8 ∷ 9 ∷ []; keys = two_keys }))
parse-build_internal_page_example =
    parse-build_internal_page 4096 5 7 (8 ∷ 9 ∷ []) two_keys valid_4096 (omega arith) (omega arith)
      (omega arith, omega arith, omega arith, (omega arith, omega arith, omega arith, tt))
      (omega arith)

-- A page of three pointers and two separators.
three_pointers-built :
    (page : List ℕ) × (build_internal_page 4096 5 (7 ∷ 8 ∷ 9 ∷ []) two_keys ≡ ok page)
    × (length page ≡ 4096)
    × (parse_internal_page page
        ≡ ok (record { parent = 5; ptrs = 7 ∷ 8 ∷ 9 ∷ []; keys = two_keys }))
three_pointers-built =
    parse-build_internal_page 4096 5 7 (8 ∷ 9 ∷ []) two_keys valid_4096 (omega arith) (omega arith)
      (omega arith, omega arith, omega arith, (omega arith, omega arith, omega arith, tt))
      (omega arith)

abbrev three_pointers : List ℕ
three_pointers = three_pointers-built.0

two_keys-AreAscending : AreAscending two_keys
two_keys-AreAscending zero zero le to = unfold bytes_compare in λ h. cc
two_keys-AreAscending zero (suc zero) le to = unfold bytes_compare in λ h. cc
two_keys-AreAscending (suc zero) (suc zero) le to = unfold bytes_compare in λ h. cc
two_keys-AreAscending (suc i) zero le to = absurd (omega arith)
two_keys-AreAscending (suc (suc i)) (suc zero) le to = absurd (omega arith)
two_keys-AreAscending i (suc (suc j)) le to = absurd (omega arith)

three_pointers-AreAscending :
    (d : InternalData) → parse_internal_page three_pointers ≡ ok d → AreAscending d.keys
three_pointers-AreAscending d h =
    subst (λ x. AreAscending x.keys) (ok_path (sym three_pointers-built.3 ∙ h))
      two_keys-AreAscending

lookup_internal_child-parse_example : lookup_internal_child three_pointers (2 ∷ []) ≡ ok 8
unfolding internal_pick_child search search_loop bytes_compare
lookup_internal_child-parse_example =
    lookup_internal_child-parse three_pointers (2 ∷ []) three_pointers-AreAscending
    ∙ ap (λ r. r >>= λ d. ok (get_or d.ptrs (internal_pick_child d.keys (2 ∷ [])) 0))
        three_pointers-built.3

abbrev old_header : Header
old_header = record {
  format_version = 1;
  page_size = 4096;
  last_wal_seq = 12;
  next_page_id = 4;
  btree_root = 1;
  features = 0;
  encryption_salt = zeros 16;
  commit_seq = 5;
  encryption_key_check = zeros 32;
  max_value_bytes = 8192;
  embedding_dim = 3;
  embedding_metric = 1;
  auth_tag = zeros 32;
  btree_root_generation = 0;
  freelist_head = 0;
  freelist_head_generation = 0;
  freelist_count = 0;
  inline_freelist = zeros 40;
}

zeros-AllWords : (n : ℕ) → AllWords (zeros n)
zeros-AllWords zero = tt
zeros-AllWords (suc n) = (omega arith, zeros-AllWords n)

old_header-IsHeader : IsHeader old_header
old_header-IsHeader = record {
  known = (omega arith, omega arith);
  size = valid_4096;
  seq = omega arith;
  next = omega arith;
  root = omega arith;
  flags = omega arith;
  salt = refl;
  commit = omega arith;
  key_check = refl;
  max_value = omega arith;
  dim = omega arith;
  tag = refl;
  root_generation = omega arith;
  head = omega arith;
  head_generation = omega arith;
  count = omega arith;
  inline = refl;
  words = zeros-AllWords 40;
}

abbrev sum_of : List ℕ → List ℕ → List ℕ
sum_of key m = zeros 32

verify-decode-authenticate_header_example :
    (h : Header) × (decode_header_page
        (encode_header_page (authenticate_header sum_of old_header (1 ∷ [])))
      ≡ ok h)
    × (verify_header_authentication sum_of h (1 ∷ []) ≡ true)
verify-decode-authenticate_header_example =
    verify-decode-authenticate_header sum_of (λ key m. refl) old_header (1 ∷ []) old_header-IsHeader

decode-encode_freelist_page_example :
    (page : List ℕ) × (encode_freelist_page 4096 (8 ∷ 9 ∷ []) 5 77 ≡ ok page)
    × (length page ≡ 4096)
    × (decode_freelist_page page ≡ ok (5, 77, 8 ∷ 9 ∷ []))
decode-encode_freelist_page_example =
    decode-encode_freelist_page 4096 (8 ∷ 9 ∷ []) 5 77 valid_4096 (omega arith)
      (omega arith, (omega arith, tt)) (omega arith) (omega arith)
      (λ h. absurd (omega arith), λ h. absurd (omega arith))

first_offset : page_byte_offset 1 4096 4144 ≡ ok 4096
unfolding page_byte_offset
first_offset = refl

third_offset : page_byte_offset 3 4096 4144 ≡ ok 12384
unfolding page_byte_offset
third_offset = refl

page_byte_offset_apart_example : (4096 ≤ 4096) × (4096 + 4144 ≤ 12384) × (12384 + 1 ≤ 2 ^ 63)
page_byte_offset_apart_example =
    page_byte_offset_apart 1 3 4096 4144 4096 12384 (omega arith) (omega arith) (omega arith)
      first_offset third_offset
