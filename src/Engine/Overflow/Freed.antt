-- ===== src/Engine/Overflow/Freed.antt =====
-- freeOverflowChain gives the pages of a chain back to the allocator.
use hexxladb.Base.{
  ℕ, suc, ◌+◌, ◌-◌, ◌^◌, ◌≤◌, ◌<◌, ◌≡◌, refl, sym, ap, ◌∙◌, ◌⊎◌, List, [], ◌∷◌, ◌++◌, append_assoc,
  append-nil, some, true, false, arith, length, length-take, take, drop, ◌==◌, ==_iff, count, ok,
}
use hexxladb.Bytes.BigEndian.{of_be}
use hexxladb.Bytes.Slices.{slice}
use hexxladb.Engine.Page.{valid_page_bounds}
use hexxladb.Engine.Pager.{Engine, WriteTxn, read_page}
use hexxladb.Engine.Writes.{IsWorking}
use hexxladb.Engine.Freelist.{with_free}
use hexxladb.Engine.Freelist.Owned.{IsOwned, with_free-IsOwned, release_page_id_lem}
use hexxladb.Engine.Overflow.{
  chain_page, chain_pages, next_of, write_overflow_chain, free_page, free_overflow_chain,
}
use hexxladb.Engine.Overflow.Chain.{next-chain_page, Holds}
use hexxladb.Engine.Overflow.Read.{next_small}
use hexxladb.Engine.Overflow.Value.{write_overflow_chain_lem}

-- The transaction after the release of a page.
abbrev released : WriteTxn → ℕ → WriteTxn
released w id = record (with_free w id) { freelist_dirty = true }

released-IsOwned :
    (used : List ℕ) (w : WriteTxn) (id : ℕ) → IsOwned (id ∷ used) w → IsOwned used (released w id)
released-IsOwned used w id h =
    let freed = with_free-IsOwned used w id h in
    record { once = freed.once; in_range = freed.in_range; same_set = freed.same_set }

-- A release writes no page of a chain.
released-Holds :
    (e : Engine) (w : WriteTxn) (id : ℕ) (ids value : List ℕ)
    → Holds e w ids value
    → Holds e (released w id) ids value
unfolding read_page
released-Holds e w id [] value h = tt
released-Holds e w id (first ∷ ids) value (here, others) =
    (here, released-Holds e w id ids (drop (e.page_size - 8) value) others)

module _ (e : Engine) (on : e.page_reuse_enabled ≡ true) (large : 8 ≤ e.page_size) where
  -- The loop releases the pages of a chain, from the first to the last.
  pub free_overflow_chain_lem :
      (ids used : List ℕ) (w : WriteTxn) (value : List ℕ) (wasted : ℕ)
      → w.hdr.format_version ≡ 3
      → IsOwned (ids ++ used) w
      → ((x : ℕ) → 0 < count x ids → (0 < x) × (x < 2 ^ 64))
      → Holds e w ids value
      → (t : WriteTxn) × (free_overflow_chain (suc (length ids)) e w wasted (next_of ids)
          ≡ some (ok (t, wasted)))
        × IsOwned used t
        × (t.free_page_ids ≡ w.free_page_ids ++ ids)
  unfolding free_overflow_chain free_page
  free_overflow_chain_lem [] used w value wasted version h range holds =
      (w, refl, h, sym (append-nil w.free_page_ids))
  free_overflow_chain_lem (id ∷ ids) used w value wasted version h range (here, holds) =
      let chunk = take (e.page_size - 8) value in
      let page = chain_page e.page_size (next_of ids) chunk in
      let others : (x : ℕ) → 0 < count x ids → (0 < x) × (x < 2 ^ 64) =
        λ x has. range x (ground (arith, has)) in
      let (pos, small) = range id (ground arith) in
      let not_end : (id == 0) ≡ false = ground arith in
      let v3 : (w.hdr.format_version == 3) ≡ true = (==_iff w.hdr.format_version 3).1 version in
      let next : of_be (slice page 0 8) ≡ next_of ids =
        next-chain_page e.page_size (next_of ids) chunk
          (omega (arith, length-take (e.page_size - 8) value)) (next_small ids others) in
      let gone = release_page_id_lem e w on version (ids ++ used) id h in
      let freed : free_page e w wasted id ≡ ok (released w id, wasted, next_of ids) =
        rw (here, v3, gone) (ap (λ n. ok (released w id, wasted, n)) next) in
      let (t, ends, owned, all) =
        free_overflow_chain_lem ids used (released w id) (drop (e.page_size - 8) value) wasted
          version (released-IsOwned (ids ++ used) w id h) others
          (released-Holds e w id ids (drop (e.page_size - 8) value) holds) in
      (
        t,
        rw (free_overflow_chain, not_end, freed) ends,
        owned,
        all ∙ append_assoc w.free_page_ids (id ∷ []) ids,
      )

-- Where pages are reused and the hooks work, in a format-3 transaction in which each page has one
-- owner, the root is in use (or there is none) and page ids do not run out: writeOverflowChain
-- succeeds, and freeOverflowChain with the first page of the chain succeeds after that, with one
-- round more than there are pages; it gives all pages of the chain, in their order, back to the
-- allocator, the other pages keep their owners, and no bytes are counted as wasted.
pub free-write_overflow_chain :
    (e : Engine) (used : List ℕ) (txn : WriteTxn) (value : List ℕ) (wasted : ℕ)
    → e.page_reuse_enabled ≡ true
    → IsWorking e
    → txn.hdr.format_version ≡ 3
    → 0 < txn.hdr.next_page_id
    → txn.hdr.next_page_id + chain_pages (length value) (e.page_size - 8) < 2 ^ 64
    → IsOwned used txn
    → (txn.hdr.btree_root ≡ 0) ⊎ (0 < count txn.hdr.btree_root used)
    → (e' : Engine) × (w : WriteTxn) × (ids : List ℕ) × (t : WriteTxn) × (write_overflow_chain e txn
          value
        ≡ (e', ok (w, next_of ids)))
      × (length ids ≡ chain_pages (length value) (e.page_size - 8))
      × (free_overflow_chain (suc (length ids)) e' w wasted (next_of ids) ≡ some (ok (t, wasted)))
      × IsOwned used t
      × (t.free_page_ids ≡ w.free_page_ids ++ ids)
free-write_overflow_chain e used txn value wasted on working version pos small h root =
    let (seq, w, ids, written, chain) =
      write_overflow_chain_lem e used txn value working version pos small h root in
    let e' = record e { next_wal_seq = seq } in
    let large : 4096 ≤ e.page_size = (valid_page_bounds e.page_size working.size).0 in
    let (t, freed, owned, all) =
      free_overflow_chain_lem e' on (omega arith) ids used w value wasted chain.version chain.owned
        chain.in_range chain.holds in
    (e', w, ids, t, written, chain.size, freed, owned, all)
