-- ===== src/Engine/Freelist/RoundTrip.antt =====
-- A freelist that is committed is loaded by the next transaction.
use hexxladb.Base.{
  ℕ, zero, suc, ◌+◌, ◌-◌, ◌*◌, ◌^◌, ◌≤◌, ◌<◌, ◌≡◌, refl, sym, ap, ◌∙◌, List, [], ◌∷◌, ◌++◌,
  append_assoc, append-nil, some, true, false, arith, length, length-take, length-drop, take, drop,
  take-append-drop, ◌==◌, ==_iff, count, count-take-drop, contains_count, ok,
}
use hexxladb.Bytes.BigEndian.{of_be}
use hexxladb.Bytes.Slices.{slice}
use hexxladb.Engine.Page.{is_valid_page_size, valid_page_bounds}
use hexxladb.Engine.Pager.{Engine, WriteTxn, dirty_page}
use hexxladb.Engine.FreelistPage.{freelist_page_capacity, page_of, length-page_of, decode-page_of}
use hexxladb.Engine.Freelist.{Loading, load_pages}
use hexxladb.Engine.Freelist.Linked.{Linked}
use hexxladb.Engine.Freelist.Reload.{
  adds, adds-HasAll, add_free_pages-adds, load_page_lem, IsVersioned, words_in_range, ends_together,
  read_primary,
}

-- What the loop ends with.
pub record HasLoaded (txn : WriteTxn) (ids external : List ℕ) (last : Loading) : Type 0 where
  pub remaining : last.remaining ≡ 0
  pub free_ids : last.txn.free_page_ids ≡ txn.free_page_ids ++ external
  pub metadata : last.txn.freelist_page_ids ≡ txn.freelist_page_ids ++ ids
  pub header : last.txn.hdr ≡ txn.hdr

module _ (e : Engine) (w : WriteTxn) (valid : is_valid_page_size e.page_size ≡ true)
    (versioned : IsVersioned e) where
  pub load_pages-Linked :
      (ids external seen : List ℕ) (txn : WriteTxn) (head generation fuel : ℕ)
      → Linked e w external ids head generation
      → ((x : ℕ) → 0 < count x ids → e.primary x ≡ dirty_page w.dirty x)
      → txn.dirty ≡ []
      → ((x : ℕ) → count x seen + count x txn.free_page_set + count x ids + count x external ≤ 1)
      → ((x : ℕ)
          → 0 < count x ids + count x external
          → (0 < x) × (x < txn.hdr.next_page_id) × (x < 2 ^ 64))
      → ((x : ℕ) → 0 < count x ids → (x == txn.hdr.btree_root) ≡ false)
      → length external ≤ length ids * freelist_page_capacity e.page_size
      → length ids < fuel
      → (last : Loading) × (load_pages fuel e (record {
        txn = txn;
        seen_metadata = seen;
        remaining = length external;
        page_id = head;
        expected_generation = generation;
      })
          ≡ some (ok last))
        × HasLoaded txn ids external last
  unfolding load_pages
  load_pages-Linked ids external seen txn head generation zero linked flushed clean once range
        no_root fits enough =
      absurd (omega arith)
  load_pages-Linked [] (b ∷ external) seen txn head generation (suc fuel) linked flushed clean once
        range no_root fits enough =
      absurd (omega arith)
  load_pages-Linked [] [] seen txn head generation (suc fuel) (no_head, none_yet) flushed clean once
        range no_root fits enough =
      let ended : (head == 0) ≡ true = (==_iff head 0).1 no_head in
      (
        record {
          txn = txn;
          seen_metadata = seen;
          remaining = 0;
          page_id = head;
          expected_generation = generation;
        },
        rw (load_pages, ended),
        record {
          remaining = refl;
          free_ids = sym (append-nil txn.free_page_ids);
          metadata = sym (append-nil txn.freelist_page_ids);
          header = refl;
        },
      )
  load_pages-Linked (id ∷ ids) external seen txn head generation (suc fuel)
        (at, pos, small, (next, next_generation, plain, dirty, wrote, back, linked)) flushed clean
        once range no_root fits enough =
      let capacity = freelist_page_capacity e.page_size in
      let chunk = take capacity external in
      let rest = drop capacity external in
      let page = page_of e.page_size chunk next next_generation in
      let split : (x : ℕ) → count x chunk + count x rest ≡ count x external =
        λ x. count-take-drop capacity x external in
      let one : 0 < count id (id ∷ ids) = ground arith in
      let (id_pos, id_below, id_small) = range id (omega arith) in
      let large : 40 ≤ e.page_size = omega (arith, valid_page_bounds e.page_size valid) in
      let room : length chunk ≤ capacity = omega (arith, length-take capacity external) in
      let whole = length-page_of e.page_size chunk next next_generation large room in
      let (next_small, generation_small, together) =
        ends_together e w rest ids next next_generation
          (λ x has. let r = range x (ground (arith, has)) in (r.0, r.2)) linked in
      let decoded =
        decode-page_of e.page_size chunk next next_generation valid room
          (words_in_range chunk (λ x has. (range x (omega (arith, has, split x))).2)) next_small
          generation_small together in
      let read =
        read_primary e txn id page plain id_pos clean (flushed id one ∙ dirty) (no_root id one)
          whole back in
      let t = adds txn chunk in
      let all = adds-HasAll chunk txn in
      let added =
        add_free_pages-adds chunk (id ∷ seen) txn (λ x. ground (arith, once x, split x))
          (λ x has. let r = range x (omega (arith, has, split x)) in (r.0, r.1)) in
      let start : Loading = record {
        txn = txn;
        seen_metadata = seen;
        remaining = length external;
        page_id = id;
        expected_generation = generation;
      } in
      let loaded =
        load_page_lem e start plain page next next_generation chunk t (ground arith)
          (ground (arith, contains_count id seen, once id))
          (ground (arith, contains_count id txn.free_page_set, once id)) (flushed id one ∙ dirty)
          ((==_iff (of_be (slice plain 0 8)) generation).1
            (versioned id generation page plain whole small wrote))
          read decoded (ground (arith, length-take capacity external)) added in
      let t' = record t { freelist_page_ids = t.freelist_page_ids ++ id ∷ [] } in
      let next_id : t.hdr.next_page_id ≡ txn.hdr.next_page_id =
        ap (λ h. h.next_page_id) all.header in
      let (last, ended, result) =
        load_pages-Linked ids rest (id ∷ seen) t' next next_generation fuel linked
          (λ x has. flushed x (ground (arith, has))) (all.dirty ∙ clean)
          (λ x. ground (arith, once x, split x, all.free_set x))
          (λ x has.
            let r = range x (ground (arith, has, split x)) in
            (r.0, omega (arith, r.1, next_id), r.2))
          (λ x has. ap (λ h. x == h.btree_root) all.header ∙ no_root x (ground (arith, has)))
          (grind (arith, fits, length-drop capacity external)) (omega arith) in
      let left : length external - length chunk ≡ length rest =
        omega (arith, length-take capacity external, length-drop capacity external) in
      let not_end : (id == 0) ≡ false = ground arith in
      (
        last,
        ap
              (λ p. load_pages (suc fuel) e (record {
                txn = txn;
                seen_metadata = seen;
                remaining = length external;
                page_id = p;
                expected_generation = generation;
              }))
              at
            ∙ rw (load_pages, not_end, loaded)
                (ap
                    (λ n. load_pages fuel e (record {
                      txn = t';
                      seen_metadata = id ∷ seen;
                      remaining = n;
                      page_id = next;
                      expected_generation = next_generation;
                    }))
                    left
                  ∙ ended),
        record {
          remaining = result.remaining;
          free_ids =
              result.free_ids
              ∙ ap (λ l. l ++ rest) all.free_ids
              ∙ append_assoc txn.free_page_ids chunk rest
              ∙ ap (λ l. txn.free_page_ids ++ l) (take-append-drop capacity external);
          metadata =
              result.metadata
              ∙ ap (λ l. (l ++ id ∷ []) ++ ids) all.metadata
              ∙ append_assoc txn.freelist_page_ids (id ∷ []) ids;
          header = result.header ∙ all.header;
        },
      )
