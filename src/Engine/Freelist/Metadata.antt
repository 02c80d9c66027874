-- ===== src/Engine/Freelist/Metadata.antt =====
-- A freelist that is committed: the pages for its metadata, and the pages that keep their owners.
use hexxladb.Base.{
  ℕ, zero, suc, ◌+◌, ◌-◌, ◌*◌, ◌^◌, ◌≤◌, ◌<◌, ◌≡◌, refl, sym, ap, subst, ltb→lt, ==_iff, ◌∙◌, inl,
  inr, List, [], ◌∷◌, ◌++◌, min, Bool, Bool-cases, true, false, not, ◌||◌, arith, length,
  length-append, length-take, length-replicate, take, drop, replicate, ltb, ◌==◌, if◌then◌else◌,
  count, count-append, count-sort, count-take-drop, contains, contains_count, Result, ok, ◌>>=◌,
}
use hexxladb.Engine.Errors.{EngineError}
use hexxladb.Engine.Pager.{Engine, WriteTxn, dirty_page}
use hexxladb.Engine.Writes.{IsWorking, Keeps}
use hexxladb.Engine.FreelistPage.{freelist_page_capacity}
use hexxladb.Engine.Freelist.{
  metadata_loop, metadata_count, distinct, write_metadata, committed, page_pool, inline_array,
  prepare_freelist_commit,
}
use hexxladb.Engine.Freelist.Owned.{IsOwned}
use hexxladb.Engine.Freelist.Linked.{Linked, write_metadata_lem}

-- The least count from n on, as far as the rounds reach.
metadata_loop_lem :
    (rounds pool capacity n : ℕ)
    → n + rounds ≡ pool
    → ((j : ℕ) → j < n → 40 + j * capacity < pool - j)
    → (pool - metadata_loop rounds pool capacity n
        ≤ 40 + metadata_loop rounds pool capacity n * capacity)
      × (metadata_loop rounds pool capacity n ≤ pool)
      × ((j : ℕ) → j < metadata_loop rounds pool capacity n → 40 + j * capacity < pool - j)
unfolding metadata_loop
metadata_loop_lem zero pool capacity n sum before = (omega arith, omega arith, before)
metadata_loop_lem (suc rounds) pool capacity n sum before =
    elim (Bool-cases (ltb (40 + n * capacity) (pool - n))) [
      | inl more ↦
          let ih = metadata_loop_lem rounds pool capacity (suc n) (omega arith) (λ j lt.
            elim (Bool-cases (j == n)) [
              | inl here ↦
                  subst (λ m. 40 + m * capacity < pool - m) (sym ((==_iff j n).0 here))
                    (ltb→lt _ _ more)
              | inr earlier ↦ before j (ground (arith, lt, earlier))
            ]) in
          rw more ih
      | inr enough ↦ rw enough (ground (arith, enough), omega arith, before)
    ]

-- metadataCount is the least count of pages for which the ids that are left fit the header and the
-- pages, and never more than the pool has.
pub metadata_count_lem :
    (pool capacity : ℕ)
    → (pool - metadata_count pool capacity ≤ 40 + metadata_count pool capacity * capacity)
      × (metadata_count pool capacity ≤ pool)
      × ((j : ℕ) → j < metadata_count pool capacity → 40 + j * capacity < pool - j)
unfolding metadata_count
metadata_count_lem pool capacity =
    metadata_loop_lem pool pool capacity 0 (omega arith) (λ j h. absurd (omega arith))

count-distinct : (x : ℕ) (ids : List ℕ) → count x (distinct ids) ≡ min 1 (count x ids)
unfolding distinct
count-distinct x [] = omega arith
count-distinct x (y ∷ ids) =
    let known = contains_count y (distinct ids) in
    elim (Bool-cases (contains y (distinct ids))) [
      | inl again ↦ elim (Bool-cases (x == y)) [
        | inl same ↦
            let e : count x (distinct ids) ≡ count y (distinct ids) =
              ap (λ z. count z (distinct ids)) ((==_iff x y).0 same) in
            rw (again, same) (ground (arith, again, known, e, count-distinct x ids))
        | inr other ↦ rw (again, other) (ground (arith, count-distinct x ids))
      ]
      | inr first ↦ elim (Bool-cases (x == y)) [
        | inl same ↦
            let e : count x (distinct ids) ≡ count y (distinct ids) =
              ap (λ z. count z (distinct ids)) ((==_iff x y).0 same) in
            rw (first, same) (ground (arith, first, known, e, count-distinct x ids))
        | inr other ↦ rw (first, other) (ground (arith, count-distinct x ids))
      ]
    ]

-- The parts of the pool that prepareFreelistCommit makes, and the transaction that it writes with.
abbrev pub metadata_part : Engine → WriteTxn → List ℕ
metadata_part e txn =
    take (metadata_count (length (page_pool txn)) (freelist_page_capacity e.page_size))
      (page_pool txn)

abbrev pub free_part : Engine → WriteTxn → List ℕ
free_part e txn =
    drop (metadata_count (length (page_pool txn)) (freelist_page_capacity e.page_size))
      (page_pool txn)

abbrev pub inline_part : Engine → WriteTxn → List ℕ
inline_part e txn = take (min (length (free_part e txn)) 40) (free_part e txn)

abbrev pub external_part : Engine → WriteTxn → List ℕ
external_part e txn = drop (min (length (free_part e txn)) 40) (free_part e txn)

abbrev pub with_inline : Engine → WriteTxn → WriteTxn
with_inline e txn = record txn {
  hdr = record txn.hdr { inline_freelist = inline_array (inline_part e txn) };
}

module _ (used : List ℕ) (txn : WriteTxn) (h : IsOwned used txn) where
  -- A page is in the pool as often as the allocator owns it.
  count-page_pool :
      (x : ℕ) → count x (page_pool txn) ≡ count x txn.free_page_ids + count x txn.freelist_page_ids
  count-page_pool x = omega (
    arith,
    count-sort x (distinct (txn.free_page_ids ++ txn.freelist_page_ids)),
    count-distinct x (txn.free_page_ids ++ txn.freelist_page_ids),
    count-append x txn.free_page_ids txn.freelist_page_ids,
    h.once x,
  )

  pub count-parts :
      (e : Engine) (x : ℕ)
      → count x (metadata_part e txn) + count x (free_part e txn)
        ≡ count x txn.free_page_ids + count x txn.freelist_page_ids
  count-parts e x =
      count-take-drop (metadata_count (length (page_pool txn)) (freelist_page_capacity e.page_size))
        x (page_pool txn)
      ∙ count-page_pool x

  -- What prepareFreelistCommit returns.
  pub prepare_freelist_commit_lem :
      (e : Engine)
      → IsWorking e
      → txn.hdr.format_version ≡ 3
      → txn.freelist_dirty ≡ true
      → (seq : ℕ) × (w : WriteTxn) × (head : ℕ) × (generation : ℕ) × (prepare_freelist_commit e txn
          ≡ (
            record e { next_wal_seq = seq },
            ok (committed (metadata_part e txn) (free_part e txn) (w, head, generation)),
          ))
        × Keeps (metadata_part e txn) (with_inline e txn) w
        × (e.next_wal_seq + length (metadata_part e txn) < 2 ^ 64
            → (seq ≡ e.next_wal_seq + length (metadata_part e txn))
              × Linked e w (external_part e txn) (metadata_part e txn) head generation)
  unfolding prepare_freelist_commit
  prepare_freelist_commit_lem e working version dirty =
      let (seq, w, head, generation, written, kept, more) =
        write_metadata_lem (metadata_part e txn) e (with_inline e txn) (external_part e txn) working
          (λ x has. (h.in_range x (omega (arith, count-parts e x))).0)
          (λ x. omega (arith, h.once x, count-parts e x)) in
      let all =
        write_metadata e (with_inline e txn) (freelist_page_capacity e.page_size)
          (external_part e txn) (metadata_part e txn) in
      let pick : Bool → Engine × Result EngineError WriteTxn = λ b.
        if b
        then (e, ok txn)
        else (all.0, all.1 >>= λ v. ok (committed (metadata_part e txn) (free_part e txn) v)) in
      let changed : (not (txn.hdr.format_version == 3) || not txn.freelist_dirty) ≡ false =
        ground (arith, version, dirty) in
      (
        seq,
        w,
        head,
        generation,
        ap pick changed
            ∙ ap (λ r. (r.0, r.1 >>= λ v. ok (committed (metadata_part e txn) (free_part e txn) v)))
                written,
        kept,
        more,
      )

  -- Where the page size is supported and the hook for writes accepts each page, in a format-3
  -- transaction in which each page has one owner and the freelist has changed: prepareFreelistCommit
  -- succeeds. Afterwards each page still has one owner, the allocator owns the same pages, and the
  -- header declares the number of free ids and has 40 inline ids; the freelist needs no further
  -- commit, and no page in use is written.
  pub prepare_freelist_commit-IsOwned :
      (e : Engine)
      → IsWorking e
      → txn.hdr.format_version ≡ 3
      → txn.freelist_dirty ≡ true
      → (t : WriteTxn) × ((prepare_freelist_commit e txn).1 ≡ ok t)
        × IsOwned used t
        × ((x : ℕ)
            → count x t.free_page_ids + count x t.freelist_page_ids
              ≡ count x txn.free_page_ids + count x txn.freelist_page_ids)
        × (t.hdr.freelist_count ≡ length t.free_page_ids)
        × (length t.hdr.inline_freelist ≡ 40)
        × (t.freelist_dirty ≡ false)
        × ((x : ℕ) → 0 < count x used → dirty_page t.dirty x ≡ dirty_page txn.dirty x)
  prepare_freelist_commit-IsOwned e working version dirty =
      let (seq, w, head, generation, prepared, kept, more) =
        prepare_freelist_commit_lem e working version dirty in
      let ids = inline_part e txn in
      let inline_size : length (inline_array ids) ≡ 40 = omega (
        arith,
        length-append ids (replicate (40 - length ids) 0),
        length-replicate {A = ℕ} (40 - length ids) 0,
        length-take (min (length (free_part e txn)) 40) (free_part e txn),
      ) in
      (
        committed (metadata_part e txn) (free_part e txn) (w, head, generation),
        ap (λ r. r.1) prepared,
        record {
          once = λ x. omega (arith, h.once x, count-parts e x);
          in_range = λ x has.
              let range = h.in_range x (omega (arith, count-parts e x)) in
              (range.0, omega (arith, range.1, kept.grows));
          same_set = λ x. refl;
        },
        λ x. omega (arith, count-parts e x),
        refl,
        ap length kept.inline ∙ inline_size,
        refl,
        λ x in_use. kept.others x (omega (arith, h.once x, count-parts e x)),
      )
