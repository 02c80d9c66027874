-- ===== src/Tests/Allocator.antt =====
-- Tests of the allocator and of overflow chains in internal/engine.
use hexxladb.Base.{
  ℕ, suc, ◌+◌, ◌-◌, ◌*◌, ◌≤◌, ◌<◌, ◌≡◌, refl, inl, ◌⊎◌, inr, arith, List, [], ◌∷◌, ◌++◌, none, some,
  true, false, length, count, contains, sort, Result, ok, err, zero, ap, sym, ◌∙◌, drop,
  length-append, ok_path,
}
use hexxladb.Bytes.BigEndian.{be, of_be, length-be, of_be-be}
use hexxladb.Bytes.Slices.{slice, take-front, drop-front}
use hexxladb.Engine.Errors.{EngineError}
use hexxladb.Engine.Page.{is_valid_page_size, zeros}
use hexxladb.Engine.Header.{Header}
use hexxladb.Engine.Pager.{Engine, WriteTxn, dirty_page, transformed, read_page}
use hexxladb.Engine.Writes.{IsWorking}
use hexxladb.Engine.Freelist.{
  alloc_page_ids, release_page_id, add_loaded_free_page, add_free_pages, load_pages, finish_loading,
  load_write_txn_freelist, metadata_count, prepare_freelist_commit, after_commit, begin_write_txn,
}
use hexxladb.Engine.Freelist.Owned.{IsOwned, alloc_page_ids-IsOwned, release_page_id-refused}
use hexxladb.Engine.Freelist.Loaded.{
  IsFresh, load_write_txn_freelist-ends, load_write_txn_freelist-IsOwned,
}
use hexxladb.Engine.Freelist.Metadata.{metadata_count_lem, prepare_freelist_commit-IsOwned}
use hexxladb.Engine.Freelist.Reload.{IsVersioned}
use hexxladb.Engine.Freelist.Reopened.{begin-prepare_freelist_commit}
use hexxladb.Engine.Overflow.{
  ids_from, chain_pages, next_of, write_overflow_chain, read_loop, read_overflow_chain,
  is_overflow_stub, encode_overflow_stub, decode_overflow_stub, free_overflow_chain,
}
use hexxladb.Engine.Reclaim.{is_allocator_owned, reclaim_target, reclaim_tail, reclaim_tail-IsOwned}
use hexxladb.Engine.Overflow.Freed.{free-write_overflow_chain}
use hexxladb.Engine.Overflow.Value.{read-write_overflow_chain, read_loop-cycle}

-- Ten pages: 1 and 2 are used, 3 and 5 are free, and 7 is metadata.
abbrev ten_pages : Header
ten_pages = record {
  format_version = 3;
  page_size = 4096;
  last_wal_seq = 12;
  next_page_id = 10;
  btree_root = 1;
  features = 8;
  encryption_salt = zeros 16;
  commit_seq = 5;
  encryption_key_check = zeros 32;
  max_value_bytes = 8192;
  embedding_dim = 0;
  embedding_metric = 0;
  auth_tag = zeros 32;
  btree_root_generation = 11;
  freelist_head = 0;
  freelist_head_generation = 0;
  freelist_count = 2;
  inline_freelist = 5 ∷ 3 ∷ zeros 38;
}

-- Pages that no hook changes.
abbrev plain_engine : Engine
plain_engine = record {
  page_size = 4096;
  physical_page_size = 4096;
  transform_write = λ id seq page. ok page;
  transform_read = λ id page. ok page;
  primary = λ id. none;
  next_wal_seq = 12;
  page_reuse_enabled = true;
  header_mac_enabled = true;
  visible_header = ten_pages;
}

abbrev open_txn : WriteTxn
open_txn = record {
  hdr = ten_pages;
  pending = [];
  dirty = [];
  free_page_ids = 3 ∷ 5 ∷ [];
  free_page_set = 5 ∷ 3 ∷ [];
  freelist_page_ids = 7 ∷ [];
  freelist_dirty = true;
}

abbrev new_txn : WriteTxn
new_txn = record {
  hdr = ten_pages;
  pending = [];
  dirty = [];
  free_page_ids = [];
  free_page_set = [];
  freelist_page_ids = [];
  freelist_dirty = false;
}

open_txn-IsOwned : IsOwned (2 ∷ 1 ∷ []) open_txn
unfolding contains
open_txn-IsOwned = record {
  once = λ x. ground arith;
  in_range = λ x has. ground (arith, has);
  same_set = λ x. ground arith;
}

plain_engine-IsWorking : IsWorking plain_engine
unfolding is_valid_page_size
plain_engine-IsWorking = record { size = refl; writes = λ id seq page h. (page, refl, h, refl) }

alloc_page_ids-IsOwned_example :
    IsOwned
      ((alloc_page_ids 3 plain_engine open_txn).1 ++ 2 ∷ 1 ∷ [])
      (alloc_page_ids 3 plain_engine open_txn).0
    × (length (alloc_page_ids 3 plain_engine open_txn).1 ≡ 3)
    × ((alloc_page_ids 3 plain_engine open_txn).0.hdr.next_page_id ≤ 10 + 3)
alloc_page_ids-IsOwned_example =
    alloc_page_ids-IsOwned 3 plain_engine (2 ∷ 1 ∷ []) open_txn refl (omega arith) (omega arith)
      open_txn-IsOwned

release_page_id-refused_example :
    (x : EngineError) × (release_page_id plain_engine open_txn 5 ≡ err x)
release_page_id-refused_example =
    release_page_id-refused plain_engine open_txn refl refl (2 ∷ 1 ∷ []) 5 open_txn-IsOwned
      (inl (omega arith))

new_txn-IsFresh : IsFresh new_txn
new_txn-IsFresh = record { version = refl; inline = refl; no_free_ids = refl; no_metadata = refl }

load_write_txn_freelist-ends_example :
    (r : Result EngineError WriteTxn) × (load_write_txn_freelist 11 plain_engine new_txn ≡ some r)
load_write_txn_freelist-ends_example =
    load_write_txn_freelist-ends new_txn new_txn-IsFresh 11 plain_engine (omega arith)

abbrev loaded_txn : WriteTxn
loaded_txn = record new_txn { free_page_ids = sort (5 ∷ 3 ∷ []); free_page_set = 3 ∷ 5 ∷ [] }

new_txn-loads : load_write_txn_freelist 11 plain_engine new_txn ≡ some (ok loaded_txn)
unfolding load_write_txn_freelist add_free_pages add_loaded_free_page load_pages finish_loading
    contains
new_txn-loads = refl

load_write_txn_freelist-IsOwned_example :
    IsOwned [] loaded_txn × (ten_pages ≡ ten_pages) × (length (sort (5 ∷ 3 ∷ [])) ≡ 2)
load_write_txn_freelist-IsOwned_example =
    load_write_txn_freelist-IsOwned new_txn new_txn-IsFresh 11 plain_engine new_txn-loads

metadata_count_lem_example :
    (200 - metadata_count 200 508 ≤ 40 + metadata_count 200 508 * 508)
    × (metadata_count 200 508 ≤ 200)
    × ((j : ℕ) → j < metadata_count 200 508 → 40 + j * 508 < 200 - j)
metadata_count_lem_example = metadata_count_lem 200 508

prepare_freelist_commit-IsOwned_example :
    (t : WriteTxn) × ((prepare_freelist_commit plain_engine open_txn).1 ≡ ok t)
    × IsOwned (2 ∷ 1 ∷ []) t
    × ((x : ℕ)
        → count x t.free_page_ids + count x t.freelist_page_ids
          ≡ count x (3 ∷ 5 ∷ []) + count x (7 ∷ []))
    × (t.hdr.freelist_count ≡ length t.free_page_ids)
    × (length t.hdr.inline_freelist ≡ 40)
    × (t.freelist_dirty ≡ false)
    × ((x : ℕ) → 0 < count x (2 ∷ 1 ∷ []) → dirty_page t.dirty x ≡ none)
prepare_freelist_commit-IsOwned_example =
    prepare_freelist_commit-IsOwned (2 ∷ 1 ∷ []) open_txn open_txn-IsOwned plain_engine
      plain_engine-IsWorking refl refl

read-write_overflow_chain_example :
    (e : Engine) × (w : WriteTxn) × (ids : List ℕ) × (write_overflow_chain plain_engine open_txn
        (1 ∷ 2 ∷ 3 ∷ [])
      ≡ (e, ok (w, next_of ids)))
    × (length ids ≡ chain_pages 3 4088)
    × IsOwned (ids ++ 2 ∷ 1 ∷ []) w
    × (is_overflow_stub (encode_overflow_stub 3 (next_of ids)) ≡ true)
    × (read_overflow_chain
          (suc (length ids))
          e
          w
          (decode_overflow_stub (encode_overflow_stub 3 (next_of ids))).1
          (decode_overflow_stub (encode_overflow_stub 3 (next_of ids))).0
        ≡ some (ok (1 ∷ 2 ∷ 3 ∷ [])))
read-write_overflow_chain_example =
    read-write_overflow_chain plain_engine (2 ∷ 1 ∷ []) open_txn (1 ∷ 2 ∷ 3 ∷ [])
      plain_engine-IsWorking refl (omega arith) (omega arith) open_txn-IsOwned (inr (omega arith))
      (omega arith)

free-write_overflow_chain_example :
    (e : Engine) × (w : WriteTxn) × (ids : List ℕ) × (t : WriteTxn) × (write_overflow_chain
        plain_engine open_txn
        (1 ∷ 2 ∷ 3 ∷ [])
      ≡ (e, ok (w, next_of ids)))
    × (length ids ≡ chain_pages 3 4088)
    × (free_overflow_chain (suc (length ids)) e w 7 (next_of ids) ≡ some (ok (t, 7)))
    × IsOwned (2 ∷ 1 ∷ []) t
    × (t.free_page_ids ≡ w.free_page_ids ++ ids)
free-write_overflow_chain_example =
    free-write_overflow_chain plain_engine (2 ∷ 1 ∷ []) open_txn (1 ∷ 2 ∷ 3 ∷ []) 7 refl
      plain_engine-IsWorking refl (omega arith) (omega arith) open_txn-IsOwned (inr (omega arith))

-- The last two pages are free, and page 7 is in use.
abbrev tail_txn : WriteTxn
tail_txn = record open_txn {
  free_page_ids = 8 ∷ 3 ∷ 9 ∷ [];
  free_page_set = 9 ∷ 3 ∷ 8 ∷ [];
  freelist_page_ids = [];
}

tail_txn-IsOwned : IsOwned (7 ∷ 1 ∷ []) tail_txn
unfolding contains
tail_txn-IsOwned = record {
  once = λ x. ground arith;
  in_range = λ x has. ground (arith, has);
  same_set = λ x. ground arith;
}

reclaimed_tail : (reclaim_tail tail_txn).hdr.next_page_id ≡ 8
unfolding reclaim_tail reclaim_target contains
reclaimed_tail = refl

reclaim_tail-IsOwned_example :
    IsOwned (7 ∷ 1 ∷ []) (reclaim_tail tail_txn)
    × ((reclaim_tail tail_txn).hdr.next_page_id ≤ 10)
    × ((x : ℕ) → (reclaim_tail tail_txn).hdr.next_page_id ≤ x → count x (7 ∷ 1 ∷ []) ≡ 0)
    × ((x : ℕ)
        → x < (reclaim_tail tail_txn).hdr.next_page_id
        → (count x (reclaim_tail tail_txn).free_page_ids ≡ count x (8 ∷ 3 ∷ 9 ∷ []))
          × (count x (reclaim_tail tail_txn).freelist_page_ids ≡ 0))
    × (((reclaim_tail tail_txn).hdr.next_page_id ≡ 1)
        ⊎ (is_allocator_owned tail_txn ((reclaim_tail tail_txn).hdr.next_page_id - 1) ≡ false))
reclaim_tail-IsOwned_example =
    reclaim_tail-IsOwned (7 ∷ 1 ∷ []) tail_txn (omega arith) tail_txn-IsOwned

-- A page that names itself as the next one.
abbrev own_page : List ℕ
own_page = zeros 7 ++ 4 ∷ zeros 8

abbrev corrupt_engine : Engine
corrupt_engine = record plain_engine {
  page_size = 16;
  physical_page_size = 16;
  primary = λ id. some own_page;
}

own_page-read : read_page corrupt_engine open_txn 4 ≡ ok own_page
unfolding read_page transformed
own_page-read = refl

own_page-next : of_be (slice own_page 0 8) ≡ 4
unfolding of_be
own_page-next = refl

read_loop-cycle_example : read_loop 1000 corrupt_engine open_txn 4 20 [] ≡ none
read_loop-cycle_example =
    read_loop-cycle 1000 corrupt_engine open_txn 4 own_page 20 [] refl own_page-read own_page-next

-- Pages with the generation in front.
abbrev versioned_engine : Engine
versioned_engine = record plain_engine {
  physical_page_size = 4104;
  transform_write = λ id seq page. ok (be 8 seq ++ page);
  transform_read = λ id page. ok (drop 8 page);
}

versioned_engine-IsWorking : IsWorking versioned_engine
unfolding is_valid_page_size
versioned_engine-IsWorking = record {
  size = refl;
  writes = λ id seq page h. (
    be 8 seq ++ page,
    refl,
    omega (arith, h, length-append (be 8 seq) page, length-be 8 seq),
    ap ok (drop-front 8 (be 8 seq) page (length-be 8 seq)),
  );
}

versioned_engine-IsVersioned : IsVersioned versioned_engine
versioned_engine-IsVersioned id seq page plain h small wrote =
    ap (λ p. of_be (slice p 0 8)) (sym (ok_path wrote))
    ∙ ap of_be (take-front 8 (be 8 seq) page (length-be 8 seq))
    ∙ of_be-be 8 seq small

count-ids_from :
    (n k x : ℕ)
    → (count x (ids_from n k) ≤ 1) × (0 < count x (ids_from n k) → (k ≤ x) × (x < k + n))
count-ids_from zero k x = (omega arith, λ h. absurd (omega arith))
count-ids_from (suc n) k x = ground (arith, count-ids_from n (k + 1) x)

-- 45 free pages from 10 on, too many for the header: 1 is used, and 7 is metadata.
abbrev many_free : WriteTxn
many_free = record open_txn {
  hdr = record ten_pages { next_page_id = 60 };
  free_page_ids = ids_from 45 10;
  free_page_set = ids_from 45 10;
}

many_free-IsOwned : IsOwned (1 ∷ []) many_free
many_free-IsOwned = record {
  once = λ x. ground (arith, count-ids_from 45 10 x);
  in_range = λ x has. ground (arith, has, count-ids_from 45 10 x);
  same_set = λ x. refl;
}

begin-prepare_freelist_commit_example :
    (e : Engine) × (t : WriteTxn) × (next : WriteTxn) × (prepare_freelist_commit versioned_engine
        many_free
      ≡ (e, ok t))
    × (begin_write_txn (suc (length t.freelist_page_ids)) (after_commit e t) ≡ some (ok next))
    × (next.free_page_ids ≡ t.free_page_ids)
    × (next.freelist_page_ids ≡ t.freelist_page_ids)
begin-prepare_freelist_commit_example =
    begin-prepare_freelist_commit versioned_engine (1 ∷ []) many_free versioned_engine-IsWorking
      versioned_engine-IsVersioned many_free-IsOwned refl refl (inr (omega arith)) (omega arith)
      (omega arith)
