-- ===== src/Engine/Freelist/Loaded.antt =====
-- A freelist that is loaded: the loop ends, and each page of the result has one owner.
use hexxladb.Base.{
  ℕ, zero, suc, ◌+◌, ◌<◌, ◌≡◌, refl, sym, ap, subst, ◌∙◌, ◌⊎◌, inl, inr, [], Option, none, some,
  min, Bool-cases, Option-cases, true, not, ◌&&◌, arith, length, length-take, take, ◌==◌, ==_iff,
  count, contains_count, sort, count-sort, length-sort, few_below, Result, ok, err, ◌>>=◌, >>=_ok,
  ok_path, ok_ne_err,
}
use hexxladb.Engine.Errors.{EngineError}
use hexxladb.Engine.Header.{Header}
use hexxladb.Engine.Pager.{Engine, WriteTxn}
use hexxladb.Engine.Freelist.{
  add_free_pages, Loading, load_page, load_pages, finish_loading, loading, after_pages,
  load_external, load_write_txn_freelist,
}
use hexxladb.Engine.Freelist.Owned.{IsOwned}
use hexxladb.Engine.Freelist.Rounds.{add_free_pages_lem, IsLoading, load_page-IsLoading}

some_path :
    {A : Type 0} {a b : Result EngineError A}
    → ◌≡◌ {A = Option (Result EngineError A)} (some a) (some b)
    → a ≡ b
some_path h = cc

none_ne_some : {A : Type 0} {a : A} → ◌≡◌ {A = Option A} none (some a) → ⊥
none_ne_some h = cc

Result-cases :
    (r : Result EngineError Loading)
    → ((n : Loading) × (r ≡ ok n)) ⊎ ((x : EngineError) × (r ≡ err x))
Result-cases (ok n) = inl (n, refl)
Result-cases (err x) = inr (x, refl)

load_pages-IsLoading :
    (hdr : Header) (total fuel : ℕ) (e : Engine) (s : Loading) {last : Loading}
    → IsLoading hdr total s
    → load_pages fuel e s ≡ some (ok last)
    → IsLoading hdr total last
unfolding load_pages
load_pages-IsLoading hdr total zero e s h r = cc
load_pages-IsLoading hdr total (suc fuel) e s h r = elim (Bool-cases (s.page_id == 0)) [
  | inl ended ↦ subst (IsLoading hdr total) (ok_path (some_path (rw (load_pages, ended) at r))) h
  | inr more ↦ elim (Result-cases (load_page e s)) [
    | inl (n, loaded) ↦
        load_pages-IsLoading hdr total fuel e n (load_page-IsLoading hdr total e s more h loaded).0
          (rw (load_pages, more, loaded) at r)
    | inr (x, failed) ↦ absurd (ok_ne_err (some_path (rw (load_pages, more, failed) at r)))
  ]
]

-- Each round sees one more of the pages below NextPageID.
load_pages-ends :
    (hdr : Header) (total fuel : ℕ) (e : Engine) (s : Loading)
    → IsLoading hdr total s
    → hdr.next_page_id < fuel + length s.seen_metadata
    → (r : Result EngineError Loading) × (load_pages fuel e s ≡ some r)
unfolding load_pages
load_pages-ends hdr total zero e s h enough =
    let next : s.txn.hdr.next_page_id ≡ hdr.next_page_id = ap (λ g. g.next_page_id) h.header in
    absurd (
      omega (
        arith,
        next,
        few_below s.txn.hdr.next_page_id s.seen_metadata
            (λ x. omega (arith, h.seen x, h.owned.once x))
            (λ x seen. (h.owned.in_range x (omega (arith, h.seen x))).1),
      ))
load_pages-ends hdr total (suc fuel) e s h enough = elim (Bool-cases (s.page_id == 0)) [
  | inl ended ↦ (ok s, rw (load_pages, ended))
  | inr more ↦ elim (Result-cases (load_page e s)) [
    | inl (n, loaded) ↦
        let (kept, longer) = load_page-IsLoading hdr total e s more h loaded in
        let (r, reached) =
          load_pages-ends hdr total fuel e n kept (omega (arith, ap length longer)) in
        (r, rw (load_pages, more, loaded) reached)
    | inr (x, failed) ↦ (err x, rw (load_pages, more, failed))
  ]
]

-- A transaction as BeginWriteTxn makes it, of format 3, with the array of the header.
pub record IsFresh (txn : WriteTxn) : Type 0 where
  pub version : txn.hdr.format_version ≡ 3
  pub inline : length txn.hdr.inline_freelist ≡ 40
  pub no_free_ids : txn.free_page_ids ≡ []
  pub no_metadata : txn.freelist_page_ids ≡ []

module _ (txn : WriteTxn) (fresh : IsFresh txn) where
  abbrev cleared : WriteTxn
  cleared = record txn { free_page_set = [] }

  abbrev inline_count : ℕ
  inline_count = min txn.hdr.freelist_count 40

  cleared-IsOwned : IsOwned [] cleared
  cleared-IsOwned =
      let none_free : (x : ℕ) → count x txn.free_page_ids ≡ 0 =
        λ x. ap (count x) fresh.no_free_ids in
      let none_metadata : (x : ℕ) → count x txn.freelist_page_ids ≡ 0 =
        λ x. ap (count x) fresh.no_metadata in
      record {
        once = λ x. omega (arith, none_free x, none_metadata x);
        in_range = λ x has. absurd (omega (arith, none_free x, none_metadata x));
        same_set = λ x.
            ground (arith, contains_count x [], contains_count x txn.free_page_ids, none_free x);
      }

  loading-IsLoading :
      {t : WriteTxn}
      → add_free_pages [] cleared (take inline_count txn.hdr.inline_freelist) ≡ ok t
      → IsLoading txn.hdr txn.hdr.freelist_count (loading inline_count t)
  loading-IsLoading added =
      let ids = take (min txn.hdr.freelist_count 40) txn.hdr.inline_freelist in
      let (owned, header, metadata, size) =
        add_free_pages_lem [] [] ids cleared (λ x h. omega (arith, ap (count x) fresh.no_metadata))
          cleared-IsOwned added in
      record {
        owned = owned;
        header = header;
        seen = λ x. sym (ap (count x) metadata ∙ ap (count x) fresh.no_metadata);
        sum = omega (
          arith,
          size,
          ap (λ g. g.freelist_count) header,
          ap length fresh.no_free_ids,
          fresh.inline,
          length-take (min txn.hdr.freelist_count 40) txn.hdr.inline_freelist,
        );
      }

  finish_loading-IsOwned :
      (s : Loading) {t : WriteTxn}
      → IsLoading txn.hdr txn.hdr.freelist_count s
      → finish_loading s ≡ ok t
      → IsOwned [] t × (t.hdr ≡ txn.hdr) × (length t.free_page_ids ≡ txn.hdr.freelist_count)
  unfolding finish_loading
  finish_loading-IsOwned s {t} h done = elim (Bool-cases (s.remaining == 0)) [
    | inr some_left ↦ absurd (ok_ne_err (rw some_left at done))
    | inl none_left ↦
        elim (Bool-cases
          ((s.txn.hdr.freelist_head == 0) && not (s.txn.hdr.freelist_head_generation == 0))) [
            | inl bad ↦ absurd (ok_ne_err (rw (none_left, bad) at done))
            | inr good ↦
                let ids = s.txn.free_page_ids in
                let sorted : IsOwned [] (record s.txn { free_page_ids = sort ids }) = record {
                  once = λ x. omega (arith, count-sort x ids, h.owned.once x);
                  in_range = λ x has. h.owned.in_range x (omega (arith, count-sort x ids, has));
                  same_set = λ x. ground (
                    arith,
                    contains_count x ids,
                    contains_count x (sort ids),
                    count-sort x ids,
                    h.owned.same_set x,
                  );
                } in
                subst
                  (λ u.
                    IsOwned [] u
                    × (u.hdr ≡ txn.hdr)
                    × (length u.free_page_ids ≡ txn.hdr.freelist_count))
                  (ok_path (rw (none_left, good) at done))
                  (sorted, h.header, ground (arith, length-sort ids, h.sum, none_left))
          ]
  ]

  -- loadWriteTxnFreelist for format 3, from the inline ids.
  v3 :
      (fuel : ℕ) (e : Engine)
      → load_write_txn_freelist fuel e txn
        ≡ load_external fuel e inline_count
            (add_free_pages [] cleared (take inline_count txn.hdr.inline_freelist))
  unfolding load_write_txn_freelist
  v3 fuel e =
      let version : (txn.hdr.format_version == 3) ≡ true =
        (==_iff txn.hdr.format_version 3).1 fresh.version in
      rw version

  external-ends :
      (fuel : ℕ) (e : Engine) (r : Result EngineError WriteTxn)
      → txn.hdr.next_page_id < fuel
      → add_free_pages [] cleared (take inline_count txn.hdr.inline_freelist) ≡ r
      → (result : Result EngineError WriteTxn) × (load_external fuel e inline_count r ≡ some result)
  external-ends fuel e (err x) enough added = (err x, refl)
  external-ends fuel e (ok t) enough added =
      let start = loading inline_count t in
      let (r, reached) =
        load_pages-ends txn.hdr txn.hdr.freelist_count fuel e start (loading-IsLoading added)
          (omega (arith, enough)) in
      (r >>= finish_loading, ap after_pages reached)

  external-IsOwned :
      (fuel : ℕ) (e : Engine) (r : Result EngineError WriteTxn) {t : WriteTxn}
      → add_free_pages [] cleared (take inline_count txn.hdr.inline_freelist) ≡ r
      → load_external fuel e inline_count r ≡ some (ok t)
      → IsOwned [] t × (t.hdr ≡ txn.hdr) × (length t.free_page_ids ≡ txn.hdr.freelist_count)
  external-IsOwned fuel e (err x) added done = cc
  external-IsOwned fuel e (ok u) added done =
      let start = loading inline_count u in
      elim (Option-cases (load_pages fuel e start)) [
        | inl none_yet ↦ absurd (none_ne_some (ap after_pages (sym none_yet) ∙ done))
        | inr (r, reached) ↦
            let (last, ended, finished) =
              >>=_ok r finish_loading (some_path (ap after_pages (sym reached) ∙ done)) in
            finish_loading-IsOwned last
              (load_pages-IsLoading txn.hdr txn.hdr.freelist_count fuel e start
                (loading-IsLoading added) (reached ∙ ap some ended))
              finished
      ]

  -- For a transaction of format 3 as BeginWriteTxn makes it, and whatever the file holds: with more
  -- fuel than there are page ids, loadWriteTxnFreelist ends, with the freelist or with an error.
  pub load_write_txn_freelist-ends :
      (fuel : ℕ) (e : Engine)
      → txn.hdr.next_page_id < fuel
      → (r : Result EngineError WriteTxn) × (load_write_txn_freelist fuel e txn ≡ some r)
  load_write_txn_freelist-ends fuel e enough =
      let (r, reached) = external-ends fuel e _ enough refl in (r, v3 fuel e ∙ reached)

  -- For a transaction of format 3 as BeginWriteTxn makes it, and whatever the file holds: if
  -- loadWriteTxnFreelist accepts the freelist, then no page is free twice, is metadata twice, or is
  -- both, all of them are allocated pages, freePageSet has the free ids, and there are as many as the
  -- header declares.
  pub load_write_txn_freelist-IsOwned :
      (fuel : ℕ) (e : Engine) {t : WriteTxn}
      → load_write_txn_freelist fuel e txn ≡ some (ok t)
      → IsOwned [] t × (t.hdr ≡ txn.hdr) × (length t.free_page_ids ≡ txn.hdr.freelist_count)
  load_write_txn_freelist-IsOwned fuel e loaded =
      external-IsOwned fuel e _ refl (sym (v3 fuel e) ∙ loaded)
