-- ===== src/Engine/Freelist/Reopened.antt =====
-- After a commit the next transaction starts with the same freelist.
use hexxladb.Base.{
  ℕ, suc, ◌+◌, ◌-◌, ◌*◌, ◌^◌, ◌%◌, ◌≤◌, ◌<◌, ◌≡◌, ◌↔◌, ◌⊎◌, refl, sym, ap, ◌∙◌, inl, inr, List, [],
  ◌∷◌, ◌++◌, some, Bool, true, false, Bool-cases, not, ◌&&◌, arith, length, length-take,
  length-drop, take, drop, take-append-drop, ◌==◌, ==_iff, count, count-take-drop, sort,
  length-sort, sort-IsSorted, drop-IsSorted, sort_of_sorted, ok, min,
}
use hexxladb.Bytes.Slices.{take-front}
use hexxladb.Engine.Header.{Header}
use hexxladb.Engine.Pager.{Engine, WriteTxn, dirty_page}
use hexxladb.Engine.Writes.{IsWorking, Keeps}
use hexxladb.Engine.FreelistPage.{freelist_page_capacity}
use hexxladb.Engine.Freelist.{
  Loading, add_free_pages, load_pages, loading, after_pages, load_external, load_write_txn_freelist,
  finish_loading, distinct, page_pool, metadata_count, committed, prepare_freelist_commit,
  new_write_txn, flushed, written, final_header, after_commit, begin_write_txn, header_only,
  committed_header,
}
use hexxladb.Engine.Freelist.Owned.{IsOwned}
use hexxladb.Engine.Freelist.Linked.{Linked}
use hexxladb.Engine.Freelist.Metadata.{
  metadata_count_lem, metadata_part, free_part, inline_part, external_part, with_inline,
  count-parts, prepare_freelist_commit_lem,
}
use hexxladb.Engine.Freelist.Reload.{
  adds, adds-HasAll, add_free_pages-adds, IsVersioned, ends_together,
}
use hexxladb.Engine.Freelist.RoundTrip.{HasLoaded, load_pages-Linked}

-- The links do not depend on the file, the header or the counter.
after-Linked :
    (e : Engine) (seq : ℕ) (hdr : Header) (w : WriteTxn) (external ids : List ℕ)
    (head generation : ℕ)
    → Linked e w external ids head generation
    → Linked (written (record e { next_wal_seq = seq }) w.dirty hdr) w external ids head generation
after-Linked e seq hdr w external [] head generation linked = linked
after-Linked e seq hdr w external (id ∷ ids) head generation
      (at, pos, small, (next, next_generation, plain, dirty, wrote, back, others)) =
    (
      at,
      pos,
      small,
      (
        next,
        next_generation,
        plain,
        dirty,
        wrote,
        back,
        after-Linked e seq hdr w (drop (freelist_page_capacity e.page_size) external) ids next
            next_generation others,
      ),
    )

-- A linked page is written.
flushed-Linked :
    (e : Engine) (w : WriteTxn) (external ids : List ℕ) (head generation x : ℕ)
    → Linked e w external ids head generation
    → 0 < count x ids
    → flushed (dirty_page w.dirty x) (e.primary x) ≡ dirty_page w.dirty x
flushed-Linked e w external [] head generation x linked has = absurd (omega arith)
flushed-Linked e w external (id ∷ ids) head generation x
      (at, pos, small, (next, next_generation, plain, dirty, wrote, back, others)) has =
    elim (Bool-cases (x == id)) [
      | inl same ↦
          let here : dirty_page w.dirty x ≡ some plain =
            ap (dirty_page w.dirty) ((==_iff x id).0 same) ∙ dirty in
          ap (λ o. flushed o (e.primary x)) here ∙ sym here
      | inr other ↦
          flushed-Linked e w (drop (freelist_page_capacity e.page_size) external) ids next
            next_generation x others (ground (arith, has, other))
    ]

length-distinct : (ids : List ℕ) → length (distinct ids) ≤ length ids
unfolding distinct
length-distinct [] = omega arith
length-distinct (id ∷ ids) = ground (arith, length-distinct ids)

-- The end of a load that the pages allow.
finish_loading_lem :
    (s : Loading) (ids : List ℕ)
    → s.remaining ≡ 0
    → (s.txn.hdr.freelist_head ≡ 0) ↔ (s.txn.hdr.freelist_head_generation ≡ 0)
    → sort s.txn.free_page_ids ≡ ids
    → finish_loading s ≡ ok (record s.txn { free_page_ids = ids })
unfolding finish_loading
finish_loading_lem s ids done together sorted =
    let ended : (s.remaining == 0) ≡ true = (==_iff s.remaining 0).1 done in
    let sound : ((s.txn.hdr.freelist_head == 0) && not (s.txn.hdr.freelist_head_generation == 0))
        ≡ false =
      ground (arith, together) in
    rw (ended, sound, sorted)

final_header_lem :
    (hdr : Header) (pending : List (ℕ × ℕ × List ℕ))
    → (seq : ℕ) × (final_header hdr pending ≡ record hdr { last_wal_seq = seq })
final_header_lem hdr [] = (hdr.last_wal_seq, refl)
final_header_lem hdr ((seq, id, plain) ∷ pending) =
    final_header_lem (record hdr { last_wal_seq = seq }) pending

header_only_lem :
    (mac : Bool) (hdr : Header) (seq : ℕ)
    → (last : ℕ) × (header_only mac hdr seq ≡ record hdr { last_wal_seq = last })
header_only_lem true hdr seq = (seq, refl)
header_only_lem false hdr seq = (hdr.last_wal_seq, refl)

-- A commit changes LastWALSeq only.
committed_header_lem :
    (e : Engine) (hdr : Header) (pending : List (ℕ × ℕ × List ℕ))
    → (last : ℕ) × (committed_header e hdr pending ≡ record hdr { last_wal_seq = last })
committed_header_lem e hdr [] =
    header_only_lem e.header_mac_enabled hdr ((e.next_wal_seq + 1) % 2 ^ 64)
committed_header_lem e hdr (p ∷ pending) = final_header_lem hdr (p ∷ pending)

module _ (used : List ℕ) (txn : WriteTxn) (h : IsOwned used txn) (e : Engine) (seq last : ℕ)
    (w : WriteTxn) (head generation : ℕ) (working : IsWorking e) (versioned : IsVersioned e)
    (small : txn.hdr.next_page_id ≤ 2 ^ 64)
    (root : (txn.hdr.btree_root ≡ 0) ⊎ (0 < count txn.hdr.btree_root used))
    (version : txn.hdr.format_version ≡ 3)
    (kept : Keeps (metadata_part e txn) (with_inline e txn) w)
    (linked : Linked e w (external_part e txn) (metadata_part e txn) head generation) where
  abbrev t : WriteTxn
  t = committed (metadata_part e txn) (free_part e txn) (w, head, generation)

  abbrev new_header : Header
  new_header = record t.hdr { last_wal_seq = last }

  abbrev reopened : Engine
  reopened = written (record e { next_wal_seq = seq }) w.dirty new_header

  abbrev inline_count : ℕ
  inline_count = min (length (free_part e txn)) 40

  size_of_inline : length (inline_part e txn) ≡ inline_count
  size_of_inline = omega (arith, length-take inline_count (free_part e txn))

  free_split :
      (x : ℕ)
      → count x (inline_part e txn) + count x (external_part e txn) ≡ count x (free_part e txn)
  free_split x = count-take-drop inline_count x (free_part e txn)

  in_range :
      (x : ℕ)
      → 0 < count x (metadata_part e txn) + count x (free_part e txn)
      → (0 < x) × (x < t.hdr.next_page_id) × (x < 2 ^ 64)
  in_range x has =
      let range = h.in_range x (omega (arith, has, count-parts used txn h e x)) in
      (range.0, omega (arith, range.1, kept.grows), omega (arith, range.1, small))

  stored_inline : take inline_count t.hdr.inline_freelist ≡ inline_part e txn
  stored_inline =
      ap (take inline_count) kept.inline
      ∙ take-front inline_count (inline_part e txn) _ size_of_inline

  inline_added :
      add_free_pages [] (new_write_txn new_header) (take inline_count t.hdr.inline_freelist)
      ≡ ok (adds (new_write_txn new_header) (inline_part e txn))
  inline_added =
      ap (add_free_pages [] (new_write_txn new_header)) stored_inline
      ∙ add_free_pages-adds (inline_part e txn) [] (new_write_txn new_header)
          (λ x. omega (arith, free_split x, count-parts used txn h e x, h.once x))
          (λ x has. let r = in_range x (omega (arith, has, free_split x)) in (r.0, r.1))

  no_root : (x : ℕ) → 0 < count x (metadata_part e txn) → (x == t.hdr.btree_root) ≡ false
  no_root x has = elim (Bool-cases (x == t.hdr.btree_root)) [
    | inr other ↦ other
    | inl same ↦
        let at : x ≡ txn.hdr.btree_root = (==_iff x t.hdr.btree_root).0 same ∙ kept.root in
        absurd (
          ground (
            arith,
            root,
            has,
            at,
            ap (λ y. count y used) at,
            h.once x,
            count-parts used txn h e x,
            in_range x (omega (arith, has)),
          ))
  ]

  enough :
      length (external_part e txn)
      ≤ length (metadata_part e txn) * freelist_page_capacity e.page_size
  enough =
      let pool = page_pool txn in
      let n = metadata_count (length pool) (freelist_page_capacity e.page_size) in
      let (fits, few, least) =
        metadata_count_lem (length pool) (freelist_page_capacity e.page_size) in
      let all_of : length (metadata_part e txn) ≡ n = omega (arith, length-take n pool, few) in
      rw all_of
        (omega (arith, length-drop inline_count (free_part e txn), length-drop n pool, fits))

  pages_loaded :
      (fuel : ℕ)
      → length (metadata_part e txn) < fuel
      → (s : Loading) × (load_pages fuel reopened
            (loading inline_count (adds (new_write_txn new_header) (inline_part e txn)))
          ≡ some (ok s))
        × HasLoaded
            (adds (new_write_txn new_header) (inline_part e txn))
            (metadata_part e txn)
            (external_part e txn)
            s
  pages_loaded fuel more =
      let t1 = adds (new_write_txn new_header) (inline_part e txn) in
      let all = adds-HasAll (inline_part e txn) (new_write_txn new_header) in
      let next_id : t1.hdr.next_page_id ≡ t.hdr.next_page_id =
        ap (λ g. g.next_page_id) all.header in
      let (s, loaded, result) =
        load_pages-Linked reopened w working.size versioned (metadata_part e txn)
          (external_part e txn) [] t1 head generation fuel
          (after-Linked e seq new_header w (external_part e txn) (metadata_part e txn) head
            generation linked)
          (λ x has.
            flushed-Linked e w (external_part e txn) (metadata_part e txn) head generation x linked
              has)
          all.dirty
          (λ x. omega (arith, all.free_set x, free_split x, count-parts used txn h e x, h.once x))
          (λ x has.
            let r = in_range x (omega (arith, has, free_split x)) in
            (r.0, omega (arith, r.1, next_id), r.2))
          (λ x has. ap (λ g. x == g.btree_root) all.header ∙ no_root x has) enough more in
      let left : length (free_part e txn) - inline_count ≡ length (external_part e txn) =
        omega (arith, length-drop inline_count (free_part e txn)) in
      (
        s,
        ap
              (λ g. load_pages fuel reopened (record {
                txn = t1;
                seen_metadata = [];
                remaining = g.freelist_count - inline_count;
                page_id = g.freelist_head;
                expected_generation = g.freelist_head_generation;
              }))
              all.header
            ∙ ap
                (λ n. load_pages fuel reopened (record {
                  txn = t1;
                  seen_metadata = [];
                  remaining = n;
                  page_id = head;
                  expected_generation = generation;
                }))
                left
            ∙ loaded,
        result,
      )

  begins :
      (fuel : ℕ)
      → length (metadata_part e txn) < fuel
      → (next : WriteTxn) × (begin_write_txn fuel reopened ≡ some (ok next))
        × (next.free_page_ids ≡ free_part e txn)
        × (next.freelist_page_ids ≡ metadata_part e txn)
  unfolding begin_write_txn load_write_txn_freelist
  begins fuel more =
      let t1 = adds (new_write_txn new_header) (inline_part e txn) in
      let all = adds-HasAll (inline_part e txn) (new_write_txn new_header) in
      let (s, loaded, result) = pages_loaded fuel more in
      let v3 : (t.hdr.format_version == 3) ≡ true =
        (==_iff t.hdr.format_version 3).1 (kept.version ∙ version) in
      let header : s.txn.hdr ≡ new_header = result.header ∙ all.header in
      let (head_small, generation_small, together) =
        ends_together e w (external_part e txn) (metadata_part e txn) head generation
          (λ x has. let r = in_range x (omega (arith, has)) in (r.0, r.2)) linked in
      let at_head : s.txn.hdr.freelist_head ≡ head = ap (λ g. g.freelist_head) header in
      let at_generation : s.txn.hdr.freelist_head_generation ≡ generation =
        ap (λ g. g.freelist_head_generation) header in
      let whole : s.txn.free_page_ids ≡ free_part e txn =
        result.free_ids
        ∙ ap (λ l. l ++ external_part e txn) all.free_ids
        ∙ take-append-drop inline_count (free_part e txn) in
      let sorted : sort s.txn.free_page_ids ≡ free_part e txn =
        ap sort whole
        ∙ sort_of_sorted (free_part e txn) (
            drop-IsSorted
              (metadata_count (length (page_pool txn)) (freelist_page_capacity e.page_size))
              (page_pool txn)
              (sort-IsSorted (distinct (txn.free_page_ids ++ txn.freelist_page_ids)))) in
      (
        record s.txn { free_page_ids = free_part e txn },
        rw v3 (
            ap (load_external fuel reopened inline_count) inline_added
            ∙ ap after_pages loaded
            ∙ ap some (
                finish_loading_lem s (free_part e txn) result.remaining
                  (ground (arith, at_head, at_generation, together)) sorted)),
        refl,
        result.metadata ∙ ap (λ l. l ++ metadata_part e txn) all.metadata,
      )

-- In a format-3 transaction in which each page has one owner, the root is in use (or there is none)
-- and the freelist has changed, where the page size is supported, the hooks work, the hook for writes
-- puts the generation in front, and neither page ids nor the counter of the log wrap:
-- prepareFreelistCommit succeeds, and when the commit is written, BeginWriteTxn makes a transaction
-- with the same free ids and the same metadata pages, with one round more than there are such pages.
pub begin-prepare_freelist_commit :
    (e : Engine) (used : List ℕ) (txn : WriteTxn)
    → IsWorking e
    → IsVersioned e
    → IsOwned used txn
    → txn.hdr.format_version ≡ 3
    → txn.freelist_dirty ≡ true
    → (txn.hdr.btree_root ≡ 0) ⊎ (0 < count txn.hdr.btree_root used)
    → txn.hdr.next_page_id ≤ 2 ^ 64
    → e.next_wal_seq + length (txn.free_page_ids ++ txn.freelist_page_ids) < 2 ^ 64
    → (e' : Engine) × (t : WriteTxn) × (next : WriteTxn) × (prepare_freelist_commit e txn
        ≡ (e', ok t))
      × (begin_write_txn (suc (length t.freelist_page_ids)) (after_commit e' t) ≡ some (ok next))
      × (next.free_page_ids ≡ t.free_page_ids)
      × (next.freelist_page_ids ≡ t.freelist_page_ids)
begin-prepare_freelist_commit e used txn working versioned h version dirty root small room =
    let (seq, w, head, generation, prepared, kept, more) =
      prepare_freelist_commit_lem used txn h e working version dirty in
    let pool = page_pool txn in
    let fits : e.next_wal_seq + length (metadata_part e txn) < 2 ^ 64 = omega (
      arith,
      room,
      length-take (metadata_count (length pool) (freelist_page_capacity e.page_size)) pool,
      length-sort (distinct (txn.free_page_ids ++ txn.freelist_page_ids)),
      length-distinct (txn.free_page_ids ++ txn.freelist_page_ids),
    ) in
    let linked = (more fits).1 in
    let t = committed (metadata_part e txn) (free_part e txn) (w, head, generation) in
    let (last, final) = committed_header_lem (record e { next_wal_seq = seq }) t.hdr t.pending in
    let (next, begun, same_ids, same_metadata) =
      begins used txn h e seq last w head generation working versioned small root version kept
        linked (suc (length (metadata_part e txn))) (omega arith) in
    (
      record e { next_wal_seq = seq },
      t,
      next,
      prepared,
      ap
            (λ g.
              begin_write_txn (suc (length (metadata_part e txn)))
                (written (record e { next_wal_seq = seq }) w.dirty g))
            final
          ∙ begun,
      same_ids,
      same_metadata,
    )
