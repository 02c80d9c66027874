-- ===== src/Engine/Freelist/Owned.antt =====
-- Each page belongs to one owner: the trees, the free ids, or the freelist itself.
use hexxladb.Base.{
  ℕ, zero, suc, ◌+◌, ◌^◌, ◌≤◌, ◌<◌, ◌≡◌, refl, sym, ap, subst, ◌∙◌, ◌%◌, ◌⊎◌, ==_iff, inl, inr,
  List, [], ◌∷◌, ◌++◌, none, Bool-cases, true, false, not, ◌||◌, arith, length, leb, ◌==◌, count,
  count-append, contains, contains_count, remove, count-remove_self, count-remove_ne, ok, err,
}
use hexxladb.Engine.Errors.{
  EngineError, cannot_release, duplicate_release, release_of_freelist_page,
}
use hexxladb.Engine.Pager.{Engine, WriteTxn}
use hexxladb.Engine.Freelist.{
  take_first, allocate_reusable_page_id, extend, alloc_page_id, alloc_page_ids, release_page_id,
  with_free,
}

-- How often a page has an owner, where the trees use the pages `used`.
abbrev pub owners : List ℕ → WriteTxn → ℕ → ℕ
owners used txn x = count x used + count x txn.free_page_ids + count x txn.freelist_page_ids

-- No page has two owners, only allocated pages have one, and freePageSet has the free ids.
pub record IsOwned (used : List ℕ) (txn : WriteTxn) : Type 0 where
  pub once : (x : ℕ) → owners used txn x ≤ 1
  pub in_range : (x : ℕ) → 0 < owners used txn x → (0 < x) × (x < txn.hdr.next_page_id)
  pub same_set : (x : ℕ) → contains x txn.free_page_set ≡ contains x txn.free_page_ids

-- The order of the used pages does not matter.
pub reorder-IsOwned :
    (used others : List ℕ) (txn : WriteTxn)
    → ((x : ℕ) → count x used ≡ count x others)
    → IsOwned used txn
    → IsOwned others txn
reorder-IsOwned used others txn same h = record {
  once = λ x. omega (arith, same x, h.once x);
  in_range = λ x pos. h.in_range x (omega (arith, same x));
  same_set = h.same_set;
}

-- The first free page is handed out.
module _ (used : List ℕ) (txn : WriteTxn) (id : ℕ) (rest : List ℕ)
    (e : txn.free_page_ids ≡ id ∷ rest) (h : IsOwned used txn) where
  was : (x : ℕ) → count x txn.free_page_ids ≡ count x (id ∷ rest)
  was x = ap (count x) e

  left_set : (x : ℕ) → contains x (remove id txn.free_page_set) ≡ contains x rest
  left_set x = elim (Bool-cases (x == id)) [
    | inl same ↦ ground (
      arith,
      same,
      contains_count x (remove id txn.free_page_set),
      contains_count x rest,
      count-remove_self id txn.free_page_set,
      was x,
      h.once x,
    )
    | inr other ↦ ground (
      arith,
      other,
      contains_count x (remove id txn.free_page_set),
      contains_count x rest,
      contains_count x txn.free_page_set,
      contains_count x txn.free_page_ids,
      count-remove_ne id x txn.free_page_set other,
      was x,
      h.same_set x,
    )
  ]

  take_first-IsOwned : IsOwned (id ∷ used) (take_first txn (id ∷ rest)).0
  take_first-IsOwned = record {
    once = λ x. ground (arith, was x, h.once x);
    in_range = λ x pos. h.in_range x (ground (arith, was x));
    same_set = left_set;
  }

-- After an allocation the page is in use, and the allocator has grown by one page at most.
abbrev IsAllocated : List ℕ → WriteTxn → WriteTxn × ℕ → Type 0
IsAllocated used txn r =
    IsOwned (r.1 ∷ used) r.0
    × (r.0.hdr.format_version ≡ 3)
    × (txn.hdr.next_page_id ≤ r.0.hdr.next_page_id)
    × (r.0.hdr.next_page_id ≤ txn.hdr.next_page_id + 1)

module _ (used : List ℕ) (txn : WriteTxn) (version : txn.hdr.format_version ≡ 3)
    (pos : 0 < txn.hdr.next_page_id) (small : txn.hdr.next_page_id + 1 < 2 ^ 64)
    (h : IsOwned used txn) where
  grown : WriteTxn
  grown = record txn { hdr = record txn.hdr { next_page_id = txn.hdr.next_page_id + 1 } }

  extend_lem : extend (txn, none) ≡ (grown, txn.hdr.next_page_id)
  unfolding grown
  extend_lem =
      let v3 : (txn.hdr.format_version == 3) ≡ true = (==_iff txn.hdr.format_version 3).1 version in
      let no_wrap : (txn.hdr.next_page_id + 1) % 2 ^ 64 ≡ txn.hdr.next_page_id + 1 = omega arith in
      rw (v3, no_wrap)

  unused :
      count txn.hdr.next_page_id used
        + count txn.hdr.next_page_id txn.free_page_ids
        + count txn.hdr.next_page_id txn.freelist_page_ids
      ≡ 0
  unused = ground (arith, h.in_range txn.hdr.next_page_id)

  grown-IsOwned : IsOwned (txn.hdr.next_page_id ∷ used) grown
  unfolding grown
  grown-IsOwned = record {
    once = λ x. ground (arith, h.once x, unused);
    in_range = λ x owned. ground (arith, h.in_range x, pos, owned);
    same_set = h.same_set;
  }

  -- The page that a list of free ids gives.
  from_free_ids :
      (ids : List ℕ) → txn.free_page_ids ≡ ids → IsAllocated used txn (extend (take_first txn ids))
  unfolding grown
  from_free_ids [] e =
      subst (IsAllocated used txn) (sym extend_lem)
        (grown-IsOwned, version, omega arith, omega arith)
  from_free_ids (id ∷ rest) e =
      (take_first-IsOwned used txn id rest e h, version, omega arith, omega arith)

  alloc_page_id-IsAllocated : (e : Engine) → IsAllocated used txn (alloc_page_id e txn)
  unfolding alloc_page_id allocate_reusable_page_id grown
  alloc_page_id-IsAllocated e =
      elim (Bool-cases (not e.page_reuse_enabled || not (txn.hdr.format_version == 3))) [
        | inl off ↦ rw off (
            subst (IsAllocated used txn) (sym extend_lem)
              (grown-IsOwned, version, omega arith, omega arith))
        | inr on ↦ rw on (from_free_ids txn.free_page_ids refl)
      ]

-- The pages that allocPageID hands out are in use, and nothing else owns them: for a format-3
-- transaction in which each page has one owner and whose page ids do not run out, n allocations,
-- with page reuse or without, give n ids, each in range and different from each other, from all
-- pages in use and from the free ids and metadata pages that are left.
pub alloc_page_ids-IsOwned :
    (n : ℕ) (e : Engine) (used : List ℕ) (txn : WriteTxn)
    → txn.hdr.format_version ≡ 3
    → 0 < txn.hdr.next_page_id
    → txn.hdr.next_page_id + n < 2 ^ 64
    → IsOwned used txn
    → IsOwned ((alloc_page_ids n e txn).1 ++ used) (alloc_page_ids n e txn).0
      × (length (alloc_page_ids n e txn).1 ≡ n)
      × ((alloc_page_ids n e txn).0.hdr.next_page_id ≤ txn.hdr.next_page_id + n)
unfolding alloc_page_ids
alloc_page_ids-IsOwned zero e used txn version pos small h = (h, refl, omega arith)
alloc_page_ids-IsOwned (suc n) e used txn version pos small h =
    let first = alloc_page_id e txn in
    let (owned, version', low, high) =
      alloc_page_id-IsAllocated used txn version pos (omega arith) h e in
    let (all, len, grown_by) =
      alloc_page_ids-IsOwned n e (first.1 ∷ used) first.0 version' (omega arith) (omega arith)
        owned in
    let others = alloc_page_ids n e first.0 in
    (
      reorder-IsOwned (others.1 ++ first.1 ∷ used) (first.1 ∷ others.1 ++ used) others.0
          (λ x.
            ground (arith, count-append x others.1 (first.1 ∷ used), count-append x others.1 used))
          all,
      ap suc len,
      omega (arith, grown_by, high),
    )

alloc_page_id-root :
    (e : Engine) (txn : WriteTxn) → (alloc_page_id e txn).0.hdr.btree_root ≡ txn.hdr.btree_root
unfolding alloc_page_id allocate_reusable_page_id
alloc_page_id-root e txn =
    elim (Bool-cases (not e.page_reuse_enabled || not (txn.hdr.format_version == 3))) [
      | inl off ↦ rw off (extended txn)
      | inr on ↦ rw on (from_ids txn.free_page_ids)
    ]
  where
    extended : (t : WriteTxn) → (extend (t, none)).0.hdr.btree_root ≡ t.hdr.btree_root
    extended t = elim (Bool-cases (t.hdr.format_version == 3)) [
      | inl v3 ↦ rw v3 refl
      | inr older ↦ rw older refl
    ]

    from_ids : (ids : List ℕ) → (extend (take_first txn ids)).0.hdr.btree_root ≡ txn.hdr.btree_root
    from_ids [] = extended txn
    from_ids (id ∷ rest) = refl

-- Allocations keep the root.
pub alloc_page_ids-root :
    (n : ℕ) (e : Engine) (txn : WriteTxn)
    → (alloc_page_ids n e txn).0.hdr.btree_root ≡ txn.hdr.btree_root
unfolding alloc_page_ids
alloc_page_ids-root zero e txn = refl
alloc_page_ids-root (suc n) e txn =
    alloc_page_ids-root n e (alloc_page_id e txn).0 ∙ alloc_page_id-root e txn

-- Allocations keep the format.
pub alloc_page_ids-version :
    (n : ℕ) (e : Engine) (used : List ℕ) (txn : WriteTxn)
    → txn.hdr.format_version ≡ 3
    → 0 < txn.hdr.next_page_id
    → txn.hdr.next_page_id + n < 2 ^ 64
    → IsOwned used txn
    → (alloc_page_ids n e txn).0.hdr.format_version ≡ 3
unfolding alloc_page_ids
alloc_page_ids-version zero e used txn version pos small h = version
alloc_page_ids-version (suc n) e used txn version pos small h =
    let first = alloc_page_id e txn in
    let (owned, version', low, high) =
      alloc_page_id-IsAllocated used txn version pos (omega arith) h e in
    alloc_page_ids-version n e (first.1 ∷ used) first.0 version' (omega arith) (omega arith) owned

-- A page in use becomes a free page.
pub with_free-IsOwned :
    (used : List ℕ) (txn : WriteTxn) (id : ℕ)
    → IsOwned (id ∷ used) txn
    → IsOwned used (with_free txn id)
with_free-IsOwned used txn id h =
    let at_end : (x : ℕ)
        → count x (txn.free_page_ids ++ id ∷ []) ≡ count x txn.free_page_ids + count x (id ∷ []) =
      λ x. count-append x txn.free_page_ids (id ∷ []) in
    record {
      once = λ x. ground (arith, at_end x, h.once x);
      in_range = λ x owned. h.in_range x (ground (arith, at_end x, owned));
      same_set = λ x. ground (
        arith,
        contains_count x (id ∷ txn.free_page_set),
        contains_count x txn.free_page_set,
        contains_count x txn.free_page_ids,
        contains_count x (txn.free_page_ids ++ id ∷ []),
        at_end x,
        h.same_set x,
      );
    }

module _ (e : Engine) (txn : WriteTxn) (on : e.page_reuse_enabled ≡ true)
    (version : txn.hdr.format_version ≡ 3) where
  reuse : (not e.page_reuse_enabled || not (txn.hdr.format_version == 3)) ≡ false
  reuse = ground (arith, on, version)

  -- A page in use is released: it becomes a free page, and the freelist has changed.
  pub release_page_id_lem :
      (used : List ℕ) (id : ℕ)
      → IsOwned (id ∷ used) txn
      → release_page_id e txn id ≡ ok (record (with_free txn id) { freelist_dirty = true })
  unfolding release_page_id
  release_page_id_lem used id h =
      let self : owners (id ∷ used) txn id ≡ suc (owners used txn id) = ground arith in
      let range = h.in_range id (omega (arith, self)) in
      let inside : ((id == 0) || leb txn.hdr.next_page_id id) ≡ false = ground (arith, range) in
      let not_free : contains id txn.free_page_set ≡ false =
        ground (arith, h.same_set id, contains_count id txn.free_page_ids, h.once id, self) in
      let not_metadata : contains id txn.freelist_page_ids ≡ false =
        ground (arith, contains_count id txn.freelist_page_ids, h.once id, self) in
      rw (reuse, inside, not_free, not_metadata)

  -- Where pages are reused, in a format-3 transaction in which each page has one owner: the release
  -- of a page that is free, that belongs to the freelist, or that is not allocated fails.
  pub release_page_id-refused :
      (used : List ℕ) (id : ℕ)
      → IsOwned used txn
      → (0 < count id txn.free_page_ids + count id txn.freelist_page_ids)
        ⊎ (txn.hdr.next_page_id ≤ id)
      → (x : EngineError) × (release_page_id e txn id ≡ err x)
  unfolding release_page_id
  release_page_id-refused used id h owned =
      elim (Bool-cases ((id == 0) || leb txn.hdr.next_page_id id)) [
        | inl outside ↦ (cannot_release, rw (reuse, outside))
        | inr inside ↦ elim (Bool-cases (contains id txn.free_page_set)) [
          | inl free ↦ (duplicate_release, rw (reuse, inside, free))
          | inr not_free ↦ elim (Bool-cases (contains id txn.freelist_page_ids)) [
            | inl metadata ↦ (release_of_freelist_page, rw (reuse, inside, not_free, metadata))
            | inr not_metadata ↦ absurd (
                ground (
                  arith,
                  owned,
                  inside,
                  not_free,
                  not_metadata,
                  h.same_set id,
                  contains_count id txn.free_page_ids,
                  contains_count id txn.freelist_page_ids,
                ))
          ]
        ]
      ]
