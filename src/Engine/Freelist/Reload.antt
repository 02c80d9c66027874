-- ===== src/Engine/Freelist/Reload.antt =====
-- The loop that loads a freelist, over metadata pages that are linked.
use hexxladb.Base.{
  ℕ, ◌+◌, ◌-◌, ◌^◌, ◌≤◌, ◌<◌, ◌≡◌, ◌↔◌, refl, sym, ap, ◌∙◌, List, [], ◌∷◌, ◌++◌, append_assoc,
  append-nil, some, true, false, ◌||◌, arith, length, ltb, leb, ◌==◌, count, contains,
  contains_count, ok,
}
use hexxladb.Bytes.BigEndian.{of_be}
use hexxladb.Bytes.Slices.{slice}
use hexxladb.Engine.Words.{AllWords}
use hexxladb.Engine.Pager.{
  Engine, WriteTxn, dirty_page, read_page, read_page_from_disk, read_dirty_or_disk,
}
use hexxladb.Engine.Writes.{transformed_lem}
use hexxladb.Engine.FreelistPage.{decode_freelist_page}
use hexxladb.Engine.Freelist.{with_free, add_loaded_free_page, add_free_pages, Loading, load_page}
use hexxladb.Engine.Freelist.Linked.{Linked}

-- The transaction with the ids as further free pages.
abbrev pub adds : WriteTxn → List ℕ → WriteTxn
adds txn [] = txn
adds txn (id ∷ ids) = adds (with_free txn id) ids

-- What adding changes, and what it leaves.
pub record HasAll (ids : List ℕ) (txn t : WriteTxn) : Type 0 where
  pub free_ids : t.free_page_ids ≡ txn.free_page_ids ++ ids
  pub free_set : (x : ℕ) → count x t.free_page_set ≡ count x txn.free_page_set + count x ids
  pub header : t.hdr ≡ txn.hdr
  pub dirty : t.dirty ≡ txn.dirty
  pub metadata : t.freelist_page_ids ≡ txn.freelist_page_ids

pub adds-HasAll : (ids : List ℕ) (txn : WriteTxn) → HasAll ids txn (adds txn ids)
adds-HasAll [] txn = record {
  free_ids = sym (append-nil txn.free_page_ids);
  free_set = λ x. omega arith;
  header = refl;
  dirty = refl;
  metadata = refl;
}
adds-HasAll (id ∷ ids) txn =
    let ih = adds-HasAll ids (with_free txn id) in
    record {
      free_ids = ih.free_ids ∙ append_assoc txn.free_page_ids (id ∷ []) ids;
      free_set = λ x. ground (arith, ih.free_set x);
      header = ih.header;
      dirty = ih.dirty;
      metadata = ih.metadata;
    }

-- Ids in range that are neither free nor metadata are added.
pub add_free_pages-adds :
    (ids seen : List ℕ) (txn : WriteTxn)
    → ((x : ℕ) → count x seen + count x txn.free_page_set + count x ids ≤ 1)
    → ((x : ℕ) → 0 < count x ids → (0 < x) × (x < txn.hdr.next_page_id))
    → add_free_pages seen txn ids ≡ ok (adds txn ids)
unfolding add_free_pages add_loaded_free_page
add_free_pages-adds [] seen txn once range = refl
add_free_pages-adds (id ∷ ids) seen txn once range =
    let one : 0 < count id (id ∷ ids) = ground arith in
    let (pos, below) = range id one in
    let unseen : contains id seen ≡ false = ground (arith, contains_count id seen, once id) in
    let inside : ((id == 0) || leb txn.hdr.next_page_id id) ≡ false = ground arith in
    let not_free : contains id txn.free_page_set ≡ false =
      ground (arith, contains_count id txn.free_page_set, once id) in
    rw (unseen, inside, not_free)
      (add_free_pages-adds ids seen (with_free txn id) (λ x. ground (arith, once x))
        (λ x has. range x (ground (arith, has))))

-- A round, from what it reads.
pub load_page_lem :
    (e : Engine) (s : Loading) (plain page : List ℕ) (next generation : ℕ) (ids : List ℕ)
    (t : WriteTxn)
    → (leb s.txn.hdr.next_page_id s.page_id || (s.expected_generation == 0)) ≡ false
    → contains s.page_id s.seen_metadata ≡ false
    → contains s.page_id s.txn.free_page_set ≡ false
    → e.primary s.page_id ≡ some plain
    → (of_be (slice plain 0 8) == s.expected_generation) ≡ true
    → read_page e s.txn s.page_id ≡ ok page
    → decode_freelist_page page ≡ ok (next, generation, ids)
    → ltb s.remaining (length ids) ≡ false
    → add_free_pages (s.page_id ∷ s.seen_metadata) s.txn ids ≡ ok t
    → load_page e s
      ≡ ok (record {
        txn = record t { freelist_page_ids = t.freelist_page_ids ++ s.page_id ∷ [] };
        seen_metadata = s.page_id ∷ s.seen_metadata;
        remaining = s.remaining - length ids;
        page_id = next;
        expected_generation = generation;
      })
unfolding load_page
load_page_lem e s plain page next generation ids t link unseen not_free primary at read decoded fits
      added =
    rw (link, unseen, not_free, primary, at, read, decoded, fits, added)

-- The hook for writes puts the generation in front.
abbrev pub IsVersioned : Engine → Type 0
IsVersioned e =
    (id seq : ℕ) (page plain : List ℕ)
    → length page ≡ e.page_size
    → seq < 2 ^ 64
    → e.transform_write id seq page ≡ ok plain
    → of_be (slice plain 0 8) ≡ seq

pub words_in_range : (ids : List ℕ) → ((x : ℕ) → 0 < count x ids → x < 2 ^ 64) → AllWords ids
words_in_range [] h = tt
words_in_range (id ∷ ids) h =
    (h id (ground arith), words_in_range ids (λ x has. h x (ground (arith, has))))

-- A link is zero exactly where its generation is.
pub ends_together :
    (e : Engine) (w : WriteTxn) (external ids : List ℕ) (head generation : ℕ)
    → ((x : ℕ) → 0 < count x ids → (0 < x) × (x < 2 ^ 64))
    → Linked e w external ids head generation
    → (head < 2 ^ 64) × (generation < 2 ^ 64) × ((head ≡ 0) ↔ (generation ≡ 0))
ends_together e w external [] head generation range (no_head, none_yet) =
    (omega (arith, no_head), omega (arith, none_yet), (λ h. none_yet, λ h. no_head))
ends_together e w external (id ∷ ids) head generation range (at, pos, small, more) =
    let r = range id (ground arith) in
    (
      omega (arith, at, r),
      small,
      (λ h. absurd (omega (arith, h, at, r)), λ h. absurd (omega (arith, h, pos))),
    )

-- A page of the primary file, where the transaction has not written it.
pub read_primary :
    (e : Engine) (txn : WriteTxn) (id : ℕ) (page plain : List ℕ)
    → 0 < id
    → txn.dirty ≡ []
    → e.primary id ≡ some plain
    → (id == txn.hdr.btree_root) ≡ false
    → length page ≡ e.page_size
    → e.transform_read id plain ≡ ok page
    → read_page e txn id ≡ ok page
unfolding read_page
read_primary e txn id page plain pos clean primary no_root whole back =
    let not_header : (id == 0) ≡ false = ground arith in
    rw not_header (
      ap (λ d. read_dirty_or_disk e txn.hdr id (dirty_page d id)) clean
      ∙ ap (read_page_from_disk e txn.hdr id) primary
      ∙ transformed_lem e txn.hdr id page plain no_root whole back)
