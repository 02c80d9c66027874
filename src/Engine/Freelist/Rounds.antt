-- ===== src/Engine/Freelist/Rounds.antt =====
-- A round of the loop that loads a freelist: no page gets a second owner.
use hexxladb.Base.{
  ℕ, ◌+◌, ◌-◌, ◌<◌, ◌≡◌, refl, ap, subst, ◌∙◌, inl, inr, List, [], ◌∷◌, ◌++◌, Bool-cases, false,
  ◌||◌, arith, length, length-append, ltb, leb, ◌==◌, count, count-append, contains, contains_count,
  ok, ◌>>=◌, >>=_ok, ok_path, ok_ne_err,
}
use hexxladb.Engine.Header.{Header}
use hexxladb.Engine.Pager.{Engine, WriteTxn, read_page}
use hexxladb.Engine.FreelistPage.{decode_freelist_page}
use hexxladb.Engine.Freelist.{
  with_free, add_loaded_free_page, add_free_pages, check_generation, Loading, load_ids, load_page,
}
use hexxladb.Engine.Freelist.Owned.{IsOwned, owners, with_free-IsOwned}

-- A page in range that has no owner may be used.
use_page :
    (used : List ℕ) (txn : WriteTxn) (id : ℕ)
    → 0 < id
    → id < txn.hdr.next_page_id
    → owners used txn id ≡ 0
    → IsOwned used txn
    → IsOwned (id ∷ used) txn
use_page used txn id pos below free h = record {
  once = λ x. ground (arith, h.once x, free);
  in_range = λ x owned. ground (arith, h.in_range x, owned);
  same_set = h.same_set;
}

add_loaded_free_page_lem :
    (used : List ℕ) (txn : WriteTxn) (id : ℕ) {t : WriteTxn}
    → count id used + count id txn.freelist_page_ids ≡ 0
    → IsOwned used txn
    → add_loaded_free_page txn id ≡ ok t
    → IsOwned used (with_free txn id) × (with_free txn id ≡ t)
unfolding add_loaded_free_page
add_loaded_free_page_lem used txn id other h e =
    elim (Bool-cases ((id == 0) || leb txn.hdr.next_page_id id)) [
      | inl outside ↦ absurd (ok_ne_err (rw outside at e))
      | inr inside ↦ elim (Bool-cases (contains id txn.free_page_set)) [
        | inl free ↦ absurd (ok_ne_err (rw (inside, free) at e))
        | inr not_free ↦
            let unowned : owners used txn id ≡ 0 =
              ground (arith, other, not_free, h.same_set id, contains_count id txn.free_page_ids) in
            (
              with_free-IsOwned used txn id (
                  use_page used txn id (ground (arith, inside)) (ground (arith, inside)) unowned h),
              ok_path (rw (inside, not_free) at e),
            )
      ]
    ]

-- What the loops over ids keep: owners, header and metadata pages, and what they add.
abbrev pub HasAdded : List ℕ → WriteTxn → ℕ → WriteTxn → Type 0
HasAdded used txn n t =
    IsOwned used t
    × (t.hdr ≡ txn.hdr)
    × (t.freelist_page_ids ≡ txn.freelist_page_ids)
    × (length t.free_page_ids ≡ length txn.free_page_ids + n)

pub add_free_pages_lem :
    (seen used ids : List ℕ) (txn : WriteTxn) {t : WriteTxn}
    → ((x : ℕ) → contains x seen ≡ false → count x used + count x txn.freelist_page_ids ≡ 0)
    → IsOwned used txn
    → add_free_pages seen txn ids ≡ ok t
    → HasAdded used txn (length ids) t
unfolding add_free_pages
add_free_pages_lem seen used [] txn covers h e =
    subst (HasAdded used txn 0) (ok_path e) (h, refl, refl, omega arith)
add_free_pages_lem seen used (id ∷ ids) txn {t} covers h e = elim (Bool-cases (contains id seen)) [
  | inl metadata ↦ absurd (ok_ne_err (rw metadata at e))
  | inr other ↦
      let (u, added, rest) = >>=_ok (add_loaded_free_page txn id) _ (rw other at e) in
      let (owned, same) = add_loaded_free_page_lem used txn id (covers id other) h added in
      let from_here : add_free_pages seen (with_free txn id) ids ≡ ok t =
        ap (λ v. add_free_pages seen v ids) same ∙ rest in
      let (owned', hdr, metadata, size) =
        add_free_pages_lem seen used ids (with_free txn id) covers owned from_here in
      (owned', hdr, metadata, omega (arith, size, length-append txn.free_page_ids (id ∷ [])))
]

-- The invariant of the loop over the metadata pages.
pub record IsLoading (hdr : Header) (total : ℕ) (s : Loading) : Type 0 where
  pub owned : IsOwned [] s.txn
  pub header : s.txn.hdr ≡ hdr
  pub seen : (x : ℕ) → count x s.seen_metadata ≡ count x s.txn.freelist_page_ids
  pub sum : length s.txn.free_page_ids + s.remaining ≡ total

load_ids-IsLoading :
    (hdr : Header) (total : ℕ) (s : Loading) (links : ℕ × ℕ × List ℕ) {next : Loading}
    → 0 < s.page_id
    → s.page_id < s.txn.hdr.next_page_id
    → contains s.page_id s.seen_metadata ≡ false
    → contains s.page_id s.txn.free_page_set ≡ false
    → IsLoading hdr total s
    → load_ids s links ≡ ok next
    → IsLoading hdr total next × (next.seen_metadata ≡ s.page_id ∷ s.seen_metadata)
load_ids-IsLoading hdr total s (next_id, next_generation, ids) {next} pos below unseen not_free h
      e =
    elim (Bool-cases (ltb s.remaining (length ids))) [
      | inl over ↦ absurd (ok_ne_err (rw over at e))
      | inr fits ↦
          let (t, added, made) =
            >>=_ok (add_free_pages (s.page_id ∷ s.seen_metadata) s.txn ids) _ (rw fits at e) in
          let no_owner : owners [] s.txn s.page_id ≡ 0 = ground (
            arith,
            unseen,
            not_free,
            contains_count s.page_id s.seen_metadata,
            contains_count s.page_id s.txn.free_page_ids,
            h.owned.same_set s.page_id,
            h.seen s.page_id,
          ) in
          let (owned, header, metadata, size) =
            add_free_pages_lem (s.page_id ∷ s.seen_metadata) (s.page_id ∷ []) ids s.txn
              (λ x not_seen.
                ground (arith, h.seen x, not_seen, contains_count x (s.page_id ∷ s.seen_metadata)))
              (use_page [] s.txn s.page_id pos below no_owner h.owned) added in
          let at_end : (x : ℕ)
              → count x (t.freelist_page_ids ++ s.page_id ∷ [])
                ≡ count x t.freelist_page_ids + count x (s.page_id ∷ []) =
            λ x. count-append x t.freelist_page_ids (s.page_id ∷ []) in
          let loaded : IsLoading hdr total (record {
            txn = record t { freelist_page_ids = t.freelist_page_ids ++ s.page_id ∷ [] };
            seen_metadata = s.page_id ∷ s.seen_metadata;
            remaining = s.remaining - length ids;
            page_id = next_id;
            expected_generation = next_generation;
          }) =
            record {
              owned = record {
                once = λ x. ground (arith, at_end x, owned.once x);
                in_range = λ x has. owned.in_range x (ground (arith, at_end x, has));
                same_set = owned.same_set;
              };
              header = header ∙ h.header;
              seen = λ x. ground (arith, at_end x, h.seen x, ap (count x) metadata);
              sum = ground (arith, fits, size, h.sum);
            } in
          subst (λ n. IsLoading hdr total n × (n.seen_metadata ≡ s.page_id ∷ s.seen_metadata))
            (ok_path made) (loaded, refl)
    ]

pub load_page-IsLoading :
    (hdr : Header) (total : ℕ) (e : Engine) (s : Loading) {next : Loading}
    → (s.page_id == 0) ≡ false
    → IsLoading hdr total s
    → load_page e s ≡ ok next
    → IsLoading hdr total next × (next.seen_metadata ≡ s.page_id ∷ s.seen_metadata)
unfolding load_page
load_page-IsLoading hdr total e s more h loaded =
    elim (Bool-cases (leb s.txn.hdr.next_page_id s.page_id || (s.expected_generation == 0))) [
      | inl bad ↦ absurd (ok_ne_err (rw bad at loaded))
      | inr link ↦ elim (Bool-cases (contains s.page_id s.seen_metadata)) [
        | inl cycle ↦ absurd (ok_ne_err (rw (link, cycle) at loaded))
        | inr unseen ↦ elim (Bool-cases (contains s.page_id s.txn.free_page_set)) [
          | inl free ↦ absurd (ok_ne_err (rw (link, unseen, free) at loaded))
          | inr not_free ↦
              let (u, checked, read) =
                >>=_ok (check_generation (e.primary s.page_id) s.expected_generation) _
                  (rw (link, unseen, not_free) at loaded) in
              let (links, decoded, made) =
                >>=_ok (read_page e s.txn s.page_id >>= decode_freelist_page) (load_ids s) read in
              load_ids-IsLoading hdr total s links (ground (arith, more)) (ground (arith, link))
                unseen not_free h made
        ]
      ]
    ]
