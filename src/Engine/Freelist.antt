-- ===== src/Engine/Freelist.antt =====
-- internal/engine/freelist.go and allocPageID of btree.go: the allocator of a write transaction. A
-- write transaction is active; without one, allocation finds no page and the other operations do
-- nothing.
pub mod Owned
pub mod Rounds
pub mod Loaded
pub mod Linked
pub mod Metadata
pub mod Reload
pub mod RoundTrip
pub mod Reopened
use hexxladb.Base.{
  ℕ, zero, suc, ◌+◌, ◌-◌, ◌*◌, ◌^◌, ◌%◌, min, List, [], ◌∷◌, ◌++◌, Option, none, some, Bool, true,
  false, not, ◌&&◌, ◌||◌, length, take, drop, replicate, ltb, leb, ◌==◌, if◌then◌else◌, contains,
  remove, sort, Result, ok, err, ◌>>=◌,
}
use hexxladb.Bytes.BigEndian.{of_be}
use hexxladb.Bytes.Slices.{slice}
use hexxladb.Engine.Errors.{
  EngineError, free_id_out_of_range, duplicate_free_id, invalid_freelist_link, freelist_cycle,
  freelist_page_is_free, freelist_generation, freelist_exceeds_count, freelist_short,
  freelist_generation_without_head, cannot_release, duplicate_release, release_of_freelist_page,
  no_page,
}
use hexxladb.Engine.Header.{Header, header_inline_freelist_capacity}
use hexxladb.Engine.Pager.{Engine, WriteTxn, dirty_page, read_page, write_page_with_generation}
use hexxladb.Engine.FreelistPage.{
  freelist_page_capacity, encode_freelist_page, decode_freelist_page,
}

-- formatVersionV3
abbrev pub format_version_v3 : ℕ
format_version_v3 = 3

-- The end of allocateReusablePageID, from freePageIDs.
abbrev pub take_first : WriteTxn → List ℕ → WriteTxn × Option ℕ
take_first txn [] = (txn, none)
take_first txn (id ∷ rest) = (
  record txn {
    free_page_ids = rest;
    free_page_set = remove id txn.free_page_set;
    freelist_dirty = true;
  },
  some id,
)

-- allocateReusablePageID
unfoldable pub allocate_reusable_page_id : Engine → WriteTxn → WriteTxn × Option ℕ
allocate_reusable_page_id e txn =
    if not e.page_reuse_enabled || not (txn.hdr.format_version == format_version_v3)
    then (txn, none)
    else take_first txn txn.free_page_ids

-- The end of allocPageID: a page behind all others.
abbrev pub extend : WriteTxn × Option ℕ → WriteTxn × ℕ
extend (txn, some id) = (txn, id)
extend (txn, none) =
    if txn.hdr.format_version == format_version_v3
    then (
      record txn { hdr = record txn.hdr { next_page_id = (txn.hdr.next_page_id + 1) % 2 ^ 64 } },
      txn.hdr.next_page_id,
    )
    else (txn, txn.hdr.next_page_id)

-- allocPageID
unfoldable pub alloc_page_id : Engine → WriteTxn → WriteTxn × ℕ
alloc_page_id e txn = extend (allocate_reusable_page_id e txn)

-- The page ids of an overflow chain: allocPageID as often as there are pages.
unfoldable pub alloc_page_ids : ℕ → Engine → WriteTxn → WriteTxn × List ℕ
alloc_page_ids zero e txn = (txn, [])
alloc_page_ids (suc n) e txn =
    let first = alloc_page_id e txn in
    let others = alloc_page_ids n e first.0 in (others.0, first.1 ∷ others.1)

-- One more free page.
abbrev pub with_free : WriteTxn → ℕ → WriteTxn
with_free txn id = record txn {
  free_page_set = id ∷ txn.free_page_set;
  free_page_ids = txn.free_page_ids ++ id ∷ [];
}

-- releasePageID
unfoldable pub release_page_id : Engine → WriteTxn → ℕ → Result EngineError WriteTxn
release_page_id e txn id =
    if not e.page_reuse_enabled || not (txn.hdr.format_version == format_version_v3)
    then ok txn
    else if (id == 0) || leb txn.hdr.next_page_id id
    then err cannot_release
    else if contains id txn.free_page_set
    then err duplicate_release
    else if contains id txn.freelist_page_ids
    then err release_of_freelist_page
    else ok (record (with_free txn id) { freelist_dirty = true })

-- addLoadedFreePage
unfoldable pub add_loaded_free_page : WriteTxn → ℕ → Result EngineError WriteTxn
add_loaded_free_page txn id =
    if (id == 0) || leb txn.hdr.next_page_id id
    then err free_id_out_of_range
    else if contains id txn.free_page_set
    then err duplicate_free_id
    else ok (with_free txn id)

-- validateDataPageGeneration, from the page in the primary file.
abbrev pub check_generation : Option (List ℕ) → ℕ → Result EngineError Unit
check_generation none expected = err no_page
check_generation (some physical) expected =
    if of_be (slice physical 0 8) == expected then ok tt else err freelist_generation

-- The loop over the ids of a freelist page; over the inline ids, with no metadata pages seen.
unfoldable pub add_free_pages : List ℕ → WriteTxn → List ℕ → Result EngineError WriteTxn
add_free_pages seen txn [] = ok txn
add_free_pages seen txn (id ∷ ids) =
    if contains id seen
    then err freelist_page_is_free
    else (add_loaded_free_page txn id >>= λ t. add_free_pages seen t ids)

-- The variables of the loop of loadWriteTxnFreelist.
pub record Loading : Type 0 where
  pub txn : WriteTxn
  pub seen_metadata : List ℕ
  pub remaining : ℕ
  pub page_id : ℕ
  pub expected_generation : ℕ

-- The end of an iteration: from the ids of the page.
abbrev pub load_ids : Loading → ℕ × ℕ × List ℕ → Result EngineError Loading
load_ids s (next_id, next_generation, ids) =
    if ltb s.remaining (length ids)
    then err freelist_exceeds_count
    else (add_free_pages (s.page_id ∷ s.seen_metadata) s.txn ids >>= λ t. ok (record {
      txn = record t { freelist_page_ids = t.freelist_page_ids ++ s.page_id ∷ [] };
      seen_metadata = s.page_id ∷ s.seen_metadata;
      remaining = s.remaining - length ids;
      page_id = next_id;
      expected_generation = next_generation;
    }))

-- An iteration of the loop of loadWriteTxnFreelist.
unfoldable pub load_page : Engine → Loading → Result EngineError Loading
load_page e s =
    if leb s.txn.hdr.next_page_id s.page_id || (s.expected_generation == 0)
    then err invalid_freelist_link
    else if contains s.page_id s.seen_metadata
    then err freelist_cycle
    else if contains s.page_id s.txn.free_page_set
    then err freelist_page_is_free
    else (check_generation (e.primary s.page_id) s.expected_generation >>= λ u.
        read_page e s.txn s.page_id >>= decode_freelist_page >>= load_ids s)

-- The loop of loadWriteTxnFreelist: `none` where the fuel is used up.
unfoldable pub load_pages : ℕ → Engine → Loading → Option (Result EngineError Loading)
load_pages zero e s = none
load_pages (suc fuel) e s = elim (s.page_id == 0) [
  | true ↦ some (ok s)
  | false ↦ elim (load_page e s) [ ok next ↦ load_pages fuel e next | err x ↦ some (err x) ]
]

-- The end of loadWriteTxnFreelist.
unfoldable pub finish_loading : Loading → Result EngineError WriteTxn
finish_loading s =
    let hdr = s.txn.hdr in
    if not (s.remaining == 0)
    then err freelist_short
    else if (hdr.freelist_head == 0) && not (hdr.freelist_head_generation == 0)
    then err freelist_generation_without_head
    else ok (record s.txn { free_page_ids = sort s.txn.free_page_ids })

-- The state in front of the loop, from the transaction with the inline ids.
abbrev pub loading : ℕ → WriteTxn → Loading
loading inline_count t = record {
  txn = t;
  seen_metadata = [];
  remaining = t.hdr.freelist_count - inline_count;
  page_id = t.hdr.freelist_head;
  expected_generation = t.hdr.freelist_head_generation;
}

-- The end, where the loop ends.
abbrev pub after_pages : Option (Result EngineError Loading) → Option (Result EngineError WriteTxn)
after_pages none = none
after_pages (some r) = some (r >>= finish_loading)

-- The loop and the end.
abbrev pub load_external :
    ℕ → Engine → ℕ → Result EngineError WriteTxn → Option (Result EngineError WriteTxn)
load_external fuel e inline_count (err x) = some (err x)
load_external fuel e inline_count (ok t) = after_pages (load_pages fuel e (loading inline_count t))

-- loadWriteTxnFreelist with fuel for its loop.
unfoldable pub load_write_txn_freelist :
    ℕ → Engine → WriteTxn → Option (Result EngineError WriteTxn)
load_write_txn_freelist fuel e txn =
    let inline_count = min txn.hdr.freelist_count header_inline_freelist_capacity in
    let cleared = record txn { free_page_set = [] } in
    if not (txn.hdr.format_version == format_version_v3)
    then some (ok txn)
    else load_external fuel e inline_count
        (add_free_pages [] cleared (take inline_count txn.hdr.inline_freelist))

-- The transaction that BeginWriteTxn makes from the visible header.
abbrev pub new_write_txn : Header → WriteTxn
new_write_txn hdr = record {
  hdr = hdr;
  pending = [];
  dirty = [];
  free_page_ids = [];
  free_page_set = [];
  freelist_page_ids = [];
  freelist_dirty = false;
}

-- A page of the primary file after the writes of a transaction.
abbrev pub flushed : Option (List ℕ) → Option (List ℕ) → Option (List ℕ)
flushed none physical = physical
flushed (some plain) physical = some plain

-- The header that CommitWriteTxn writes: LastWALSeq is the sequence of the last pending page.
abbrev pub final_header : Header → List (ℕ × ℕ × List ℕ) → Header
final_header hdr [] = hdr
final_header hdr ((seq, id, plain) ∷ pending) =
    final_header (record hdr { last_wal_seq = seq }) pending

-- The header of a commit without pages: commitAuthenticatedHeaderOnly takes a sequence of its own.
abbrev pub header_only : Bool → Header → ℕ → Header
header_only true hdr seq = record hdr { last_wal_seq = seq }
header_only false hdr seq = hdr

-- The header that a commit writes.
abbrev pub committed_header : Engine → Header → List (ℕ × ℕ × List ℕ) → Header
committed_header e hdr [] = header_only e.header_mac_enabled hdr ((e.next_wal_seq + 1) % 2 ^ 64)
committed_header e hdr (p ∷ pending) = final_header hdr (p ∷ pending)

-- The engine with pages that are written to the primary file, and a header.
abbrev pub written : Engine → List (ℕ × List ℕ) → Header → Engine
written e dirty hdr = record e {
  primary = λ id. flushed (dirty_page dirty id) (e.primary id);
  visible_header = hdr;
}

-- What CommitWriteTxn leaves, after prepareFreelistCommit, where no write to a file fails.
abbrev pub after_commit : Engine → WriteTxn → Engine
after_commit e txn = written e txn.dirty (committed_header e txn.hdr txn.pending)

-- BeginWriteTxn, where no transaction is active, with fuel for the load of the freelist.
unfoldable pub begin_write_txn : ℕ → Engine → Option (Result EngineError WriteTxn)
begin_write_txn fuel e = load_write_txn_freelist fuel e (new_write_txn e.visible_header)

-- The loop of prepareFreelistCommit that counts metadata pages, with the rounds that are left.
unfoldable pub metadata_loop : ℕ → ℕ → ℕ → ℕ → ℕ
metadata_loop zero pool capacity n = n
metadata_loop (suc rounds) pool capacity n =
    let more = metadata_loop rounds pool capacity (suc n) in
    if ltb (header_inline_freelist_capacity + n * capacity) (pool - n) then more else n

-- metadataCount; the loop ends at the latest where every page of the pool is metadata.
unfoldable pub metadata_count : ℕ → ℕ → ℕ
metadata_count pool capacity = metadata_loop pool pool capacity 0

-- The keys of poolSet.
unfoldable pub distinct : List ℕ → List ℕ
distinct [] = []
distinct (id ∷ ids) = let rest = distinct ids in if contains id rest then rest else id ∷ rest

-- One round of the loop that writes the metadata pages: from the encoded page.
abbrev pub write_metadata_page :
    Engine
    → WriteTxn
    → ℕ
    → Result EngineError (List ℕ)
    → Engine × Result EngineError (WriteTxn × ℕ × ℕ)
write_metadata_page e txn id (err x) = (e, err x)
write_metadata_page e txn id (ok page) =
    let written = write_page_with_generation e txn id page in
    (written.0, written.1 >>= λ w. ok (w.0, id, w.1))

-- A round after those for the later pages.
abbrev pub write_metadata_before :
    ℕ
    → ℕ
    → List ℕ
    → Engine × Result EngineError (WriteTxn × ℕ × ℕ)
    → Engine × Result EngineError (WriteTxn × ℕ × ℕ)
write_metadata_before page_size id ids (e, err x) = (e, err x)
write_metadata_before page_size id ids (e, ok (txn, next_id, next_generation)) =
    write_metadata_page e txn id (encode_freelist_page page_size ids next_id next_generation)

-- The loop that writes the metadata pages, the last one first: the head and its generation.
unfoldable pub write_metadata :
    Engine → WriteTxn → ℕ → List ℕ → List ℕ → Engine × Result EngineError (WriteTxn × ℕ × ℕ)
write_metadata e txn capacity external [] = (e, ok (txn, 0, 0))
write_metadata e txn capacity external (id ∷ ids) =
    write_metadata_before e.page_size id (take capacity external)
      (write_metadata e txn capacity (drop capacity external) ids)

-- The assignments at the end of prepareFreelistCommit.
abbrev pub committed : List ℕ → List ℕ → WriteTxn × ℕ × ℕ → WriteTxn
committed metadata_ids free_ids (txn, head, generation) = record txn {
  hdr = record txn.hdr {
    freelist_head = head;
    freelist_head_generation = generation;
    freelist_count = length free_ids;
  };
  free_page_ids = free_ids;
  free_page_set = free_ids;
  freelist_page_ids = metadata_ids;
  freelist_dirty = false;
}

-- The pool of prepareFreelistCommit.
abbrev pub page_pool : WriteTxn → List ℕ
page_pool txn = sort (distinct (txn.free_page_ids ++ txn.freelist_page_ids))

-- InlineFreelist after clear and copy.
abbrev pub inline_array : List ℕ → List ℕ
inline_array ids = ids ++ replicate (header_inline_freelist_capacity - length ids) 0

-- prepareFreelistCommit
unfoldable pub prepare_freelist_commit : Engine → WriteTxn → Engine × Result EngineError WriteTxn
prepare_freelist_commit e txn =
    let pool = page_pool txn in
    let capacity = freelist_page_capacity e.page_size in
    let count = metadata_count (length pool) capacity in
    let free_ids = drop count pool in
    let inline_count = min (length free_ids) header_inline_freelist_capacity in
    let cleared = record txn {
      hdr = record txn.hdr { inline_freelist = inline_array (take inline_count free_ids) };
    } in
    let written =
      write_metadata e cleared capacity (drop inline_count free_ids) (take count pool) in
    if not (txn.hdr.format_version == format_version_v3) || not txn.freelist_dirty
    then (e, ok txn)
    else (written.0, written.1 >>= λ w. ok (committed (take count pool) free_ids w))
