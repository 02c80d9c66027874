-- ===== src/Engine/Overflow/Value.antt =====
-- A value that is written as a chain is read back.
use hexxladb.Base.{
  ℕ, zero, suc, ◌+◌, ◌-◌, ◌*◌, ◌^◌, ◌≤◌, ◌<◌, ◌≡◌, refl, sym, ap, ◌∙◌, inl, inr, ◌⊎◌, List, ◌++◌,
  none, some, Bool-cases, true, false, arith, length, leb, ◌==◌, ==_iff, contains, count,
  count-append, ok,
}
use hexxladb.Bytes.BigEndian.{of_be}
use hexxladb.Bytes.Slices.{slice}
use hexxladb.Engine.Page.{valid_page_bounds}
use hexxladb.Engine.Pager.{Engine, WriteTxn, read_page}
use hexxladb.Engine.Writes.{IsWorking, Keeps}
use hexxladb.Engine.Freelist.{alloc_page_ids}
use hexxladb.Engine.Freelist.Owned.{
  IsOwned, alloc_page_ids-IsOwned, alloc_page_ids-version, alloc_page_ids-root,
}
use hexxladb.Engine.Overflow.Written.{write_chain_lem, Holds-same}
use hexxladb.Engine.Overflow.{
  chain_pages, chunk_of, next_of, chain_ids, and_then, write_overflow_chain, read_loop,
  read_overflow_chain, is_overflow_stub, encode_overflow_stub, decode_overflow_stub,
}
use hexxladb.Engine.Overflow.Stub.{decode-encode_overflow_stub}
use hexxladb.Engine.Overflow.Chain.{AreWritable, Holds}
use hexxladb.Engine.Overflow.Read.{next_small, enough_pages, read_overflow_chain_lem}

-- Writes to pages in use keep the owners.
Keeps-IsOwned :
    (used ids : List ℕ) (txn w : WriteTxn) → IsOwned used txn → Keeps ids txn w → IsOwned used w
Keeps-IsOwned used ids txn w h k =
    let free : (x : ℕ) → count x w.free_page_ids ≡ count x txn.free_page_ids =
      λ x. ap (count x) k.free_ids in
    let metadata : (x : ℕ) → count x w.freelist_page_ids ≡ count x txn.freelist_page_ids =
      λ x. ap (count x) k.metadata in
    record {
      once = λ x. omega (arith, h.once x, free x, metadata x);
      in_range = λ x has.
          let range = h.in_range x (omega (arith, has, free x, metadata x)) in
          (range.0, omega (arith, range.1, k.grows));
      same_set = λ x. ap (contains x) k.free_set ∙ h.same_set x ∙ sym (ap (contains x) k.free_ids);
    }

-- Ids that the allocator hands out are writable, where the root is in use, or there is none.
owned-AreWritable :
    (used ids : List ℕ) (txn : WriteTxn)
    → (txn.hdr.btree_root ≡ 0) ⊎ (0 < count txn.hdr.btree_root used)
    → txn.hdr.next_page_id ≤ 2 ^ 64
    → IsOwned (ids ++ used) txn
    → AreWritable txn ids
owned-AreWritable used ids txn root small h = record {
  once = λ x. omega (arith, h.once x, count-append x ids used);
  in_range = λ x has.
      let range = h.in_range x (omega (arith, has, count-append x ids used)) in
      (range.0, omega (arith, range.1, small));
  no_root = λ x has. elim (Bool-cases (x == txn.hdr.btree_root)) [
    | inr other ↦ other
    | inl same ↦
        let at = (==_iff x txn.hdr.btree_root).0 same in
        let in_use = ap (λ y. count y used) at in
        absurd (
          ground (
            arith,
            root,
            has,
            at,
            in_use,
            h.once x,
            h.in_range x (omega (arith, has, count-append x ids used)),
            count-append x ids used,
          ))
  ];
}

-- What a written chain is: new pages, as many as the value needs, that hold the value.
pub record IsChain (e : Engine) (used : List ℕ) (w : WriteTxn) (ids value : List ℕ) : Type 0 where
  pub size : length ids ≡ chain_pages (length value) (e.page_size - 8)
  pub owned : IsOwned (ids ++ used) w
  pub in_range : (x : ℕ) → 0 < count x ids → (0 < x) × (x < 2 ^ 64)
  pub holds : Holds e w ids value
  pub version : w.hdr.format_version ≡ 3

module _ (e : Engine) (used : List ℕ) (txn : WriteTxn) (value : List ℕ) (working : IsWorking e)
    (version : txn.hdr.format_version ≡ 3) (pos : 0 < txn.hdr.next_page_id)
    (small : txn.hdr.next_page_id + chain_pages (length value) (e.page_size - 8) < 2 ^ 64)
    (h : IsOwned used txn)
    (root : (txn.hdr.btree_root ≡ 0) ⊎ (0 < count txn.hdr.btree_root used)) where
  pub write_overflow_chain_lem :
      (seq : ℕ) × (w : WriteTxn) × (ids : List ℕ) × (write_overflow_chain e txn value
        ≡ (record e { next_wal_seq = seq }, ok (w, next_of ids)))
      × IsChain (record e { next_wal_seq = seq }) used w ids value
  unfolding write_overflow_chain chain_ids
  write_overflow_chain_lem =
      let n = chain_pages (length value) (e.page_size - 8) in
      let txn1 = (alloc_page_ids n e txn).0 in
      let ids = (alloc_page_ids n e txn).1 in
      let (owned, count_ids, grown) = alloc_page_ids-IsOwned n e used txn version pos small h in
      let large : 4096 ≤ e.page_size = (valid_page_bounds e.page_size working.size).0 in
      let same_root = alloc_page_ids-root n e txn in
      let root1 : (txn1.hdr.btree_root ≡ 0) ⊎ (0 < count txn1.hdr.btree_root used) =
        ground (arith, root, same_root, ap (λ r. count r used) same_root) in
      let writable = owned-AreWritable used ids txn1 root1 (omega arith) owned in
      let (seq, w, written, kept, holds) = write_chain_lem ids e txn1 value working writable in
      let v3 : (txn.hdr.format_version == 3) ≡ true = (==_iff txn.hdr.format_version 3).1 version in
      let room : leb e.page_size 8 ≡ false = ground arith in
      (
        seq,
        w,
        ids,
        rw (room, v3) (ap (λ r. and_then r (λ e1 v. (e1, ok (v, next_of ids)))) written),
        record {
          size = count_ids;
          owned = Keeps-IsOwned (ids ++ used) ids txn1 w owned kept;
          in_range = writable.in_range;
          holds = Holds-same e seq w ids value holds;
          version = kept.version ∙ alloc_page_ids-version n e used txn version pos small h;
        },
      )

  -- Where the hooks work, in a format-3 transaction in which each page has one owner, the root is in use
  -- (or there is none) and page ids do not run out, for a value of less than 2 ^ 32 bytes:
  -- writeOverflowChain succeeds, with as many pages as the value needs and at least one, which were not
  -- in use before; what encodeOverflowStub makes for the chain is a stub by isOverflowStub; and
  -- readOverflowChain, with the page and the length that decodeOverflowStub reads from it, gives the
  -- value back, with one round more than there are pages.
  pub read-write_overflow_chain :
      length value < 2 ^ 32
      → (e' : Engine) × (w : WriteTxn) × (ids : List ℕ) × (write_overflow_chain e txn value
          ≡ (e', ok (w, next_of ids)))
        × (length ids ≡ chain_pages (length value) (e.page_size - 8))
        × IsOwned (ids ++ used) w
        × (is_overflow_stub (encode_overflow_stub (length value) (next_of ids)) ≡ true)
        × (read_overflow_chain
              (suc (length ids))
              e'
              w
              (decode_overflow_stub (encode_overflow_stub (length value) (next_of ids))).1
              (decode_overflow_stub (encode_overflow_stub (length value) (next_of ids))).0
            ≡ some (ok value))
  read-write_overflow_chain short =
      let (seq, w, ids, written, chain) = write_overflow_chain_lem in
      let e' = record e { next_wal_seq = seq } in
      let large : 4096 ≤ e.page_size = (valid_page_bounds e.page_size working.size).0 in
      let enough : length value ≤ length ids * (e.page_size - 8) =
        rw (chain.size) (enough_pages (length value) (e.page_size - 8) (omega arith)) in
      let (is_stub, decoded) =
        decode-encode_overflow_stub (length value) (next_of ids) short
          (next_small ids chain.in_range) in
      (
        e',
        w,
        ids,
        written,
        chain.size,
        chain.owned,
        is_stub,
        ap (λ s. read_overflow_chain (suc (length ids)) e' w s.1 s.0) decoded
            ∙ read_overflow_chain_lem ids e' w value (omega arith) chain.in_range chain.holds
                enough,
      )

-- Where the page with an id other than 0 can be read and names itself as the next page, the loop of
-- readOverflowChain does not end: no number of rounds is enough, whatever length the stub declares
-- and whatever is already read.
pub read_loop-cycle :
    (fuel : ℕ) (e : Engine) (txn : WriteTxn) (id : ℕ) (page : List ℕ) (logical_len : ℕ)
    (result : List ℕ)
    → (id == 0) ≡ false
    → read_page e txn id ≡ ok page
    → of_be (slice page 0 8) ≡ id
    → read_loop fuel e txn id logical_len result ≡ none
unfolding read_loop
read_loop-cycle zero e txn id page logical_len result pos read self = refl
read_loop-cycle (suc fuel) e txn id page logical_len result pos read self =
    let next = result ++ chunk_of page (e.page_size - 8) (logical_len - length result) in
    rw (read_loop, pos, read)
      (ap (λ p. read_loop fuel e txn p logical_len next) self
        ∙ read_loop-cycle fuel e txn id page logical_len next pos read self)
