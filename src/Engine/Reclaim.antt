-- ===== src/Engine/Reclaim.antt =====
-- internal/engine/reclaim.go: the free pages at the end of the file, which ReclaimTail gives back. The
-- commit and the truncation of the file are not modelled.
use hexxladb.Base.{
  ℕ, zero, suc, ◌-◌, ◌≤◌, ◌<◌, ◌≡◌, refl, ap, ◌∙◌, ==_iff, inl, inr, ◌⊎◌, List, [], ◌∷◌, Bool,
  Bool-cases, true, false, ◌&&◌, ◌||◌, arith, ltb, ◌==◌, if◌then◌else◌, count, contains,
  contains_count,
}
use hexxladb.Engine.Pager.{WriteTxn}
use hexxladb.Engine.Freelist.Owned.{IsOwned}

-- filterPageIDsBelow
unfoldable pub filter_page_ids_below : List ℕ → ℕ → List ℕ
filter_page_ids_below [] limit = []
filter_page_ids_below (id ∷ ids) limit =
    let kept = filter_page_ids_below ids limit in if ltb id limit then id ∷ kept else kept

-- Whether allocatorOwned has the page.
abbrev pub is_allocator_owned : WriteTxn → ℕ → Bool
is_allocator_owned txn id = contains id txn.free_page_ids || contains id txn.freelist_page_ids

-- The loop of ReclaimTail from a target.
unfoldable pub reclaim_target : WriteTxn → ℕ → ℕ
reclaim_target txn zero = zero
reclaim_target txn (suc below) =
    let lower = reclaim_target txn below in
    if ltb 1 (suc below) && is_allocator_owned txn below then lower else suc below

-- The transaction that ReclaimTail commits, or the one it aborts where nothing is reclaimed.
unfoldable pub reclaim_tail : WriteTxn → WriteTxn
reclaim_tail txn =
    let target = reclaim_target txn txn.hdr.next_page_id in
    let free_page_ids = filter_page_ids_below txn.free_page_ids target in
    if target == txn.hdr.next_page_id then txn else record txn {
      free_page_ids = free_page_ids;
      freelist_page_ids = filter_page_ids_below txn.freelist_page_ids target;
      free_page_set = free_page_ids;
      hdr = record txn.hdr { next_page_id = target };
      freelist_dirty = true;
    }

count-filter_page_ids_below :
    (x limit : ℕ) (ids : List ℕ)
    → count x (filter_page_ids_below ids limit) ≡ (if ltb x limit then count x ids else 0)
unfolding filter_page_ids_below
count-filter_page_ids_below x limit [] = ground arith
count-filter_page_ids_below x limit (id ∷ ids) =
    ground (arith, count-filter_page_ids_below x limit ids)

-- The loop stops at a page that the allocator does not own, and passes only pages that it owns.
reclaim_target_lem :
    (txn : WriteTxn) (target : ℕ)
    → 0 < target
    → (0 < reclaim_target txn target)
      × (reclaim_target txn target ≤ target)
      × ((x : ℕ) → reclaim_target txn target ≤ x → x < target → is_allocator_owned txn x ≡ true)
      × ((reclaim_target txn target ≡ 1)
          ⊎ (is_allocator_owned txn (reclaim_target txn target - 1) ≡ false))
unfolding reclaim_target
reclaim_target_lem txn zero pos = absurd (omega arith)
reclaim_target_lem txn (suc below) pos =
    elim (Bool-cases (ltb 1 (suc below) && is_allocator_owned txn below)) [
      | inl on ↦
          let (above_zero, falls, passed, stop) =
            reclaim_target_lem txn below (ground (arith, on)) in
          rw on (
            above_zero,
            omega arith,
            λ x low high. elim (Bool-cases (x == below)) [
              | inl same ↦
                  ap (is_allocator_owned txn) ((==_iff x below).0 same) ∙ ground (arith, on)
              | inr other ↦ passed x low (ground (arith, other))
            ],
            stop,
          )
      | inr off ↦
          let back : suc below - 1 ≡ below = omega arith in
          let last : (suc below ≡ 1) ⊎ (is_allocator_owned txn (suc below - 1) ≡ false) =
            elim (Bool-cases (is_allocator_owned txn below)) [
              | inl owned ↦ inl (ground (arith, off, owned))
              | inr free ↦ inr (ap (is_allocator_owned txn) back ∙ free)
            ] in
          rw off (omega arith, omega arith, λ x low high. absurd (omega arith), last)
    ]

-- In a transaction in which each page has one owner and whose NextPageID is positive: after ReclaimTail
-- has lowered NextPageID, each page still has one owner and no page in use is cut off; the free ids
-- and the metadata pages in front of the cut are as before, and the cut is as low as it can be, behind
-- the first page of the file or behind a page that the allocator does not own.
pub reclaim_tail-IsOwned :
    (used : List ℕ) (txn : WriteTxn)
    → 0 < txn.hdr.next_page_id
    → IsOwned used txn
    → IsOwned used (reclaim_tail txn)
      × ((reclaim_tail txn).hdr.next_page_id ≤ txn.hdr.next_page_id)
      × ((x : ℕ) → (reclaim_tail txn).hdr.next_page_id ≤ x → count x used ≡ 0)
      × ((x : ℕ)
          → x < (reclaim_tail txn).hdr.next_page_id
          → (count x (reclaim_tail txn).free_page_ids ≡ count x txn.free_page_ids)
            × (count x (reclaim_tail txn).freelist_page_ids ≡ count x txn.freelist_page_ids))
      × (((reclaim_tail txn).hdr.next_page_id ≡ 1)
          ⊎ (is_allocator_owned txn ((reclaim_tail txn).hdr.next_page_id - 1) ≡ false))
unfolding reclaim_tail
reclaim_tail-IsOwned used txn pos h =
    let target = reclaim_target txn txn.hdr.next_page_id in
    let (above_zero, falls, passed, stop) = reclaim_target_lem txn txn.hdr.next_page_id pos in
    let free : (x : ℕ)
        → count x (filter_page_ids_below txn.free_page_ids target)
          ≡ (if ltb x target then count x txn.free_page_ids else 0) =
      λ x. count-filter_page_ids_below x target txn.free_page_ids in
    let metadata : (x : ℕ)
        → count x (filter_page_ids_below txn.freelist_page_ids target)
          ≡ (if ltb x target then count x txn.freelist_page_ids else 0) =
      λ x. count-filter_page_ids_below x target txn.freelist_page_ids in
    let unused : (x : ℕ) → target ≤ x → count x used ≡ 0 = λ x low.
      elim (Bool-cases (ltb x txn.hdr.next_page_id)) [
        | inl inside ↦ ground (
          arith,
          h.once x,
          passed x low (ground (arith, inside)),
          contains_count x txn.free_page_ids,
          contains_count x txn.freelist_page_ids,
        )
        | inr outside ↦ ground (arith, outside, h.in_range x)
      ] in
    elim (Bool-cases (target == txn.hdr.next_page_id)) [
      | inl same ↦
          let at = (==_iff target txn.hdr.next_page_id).0 same in
          rw same (
            h,
            omega arith,
            λ x low. unused x (omega (arith, at, low)),
            λ x front. (refl, refl),
            rw at at stop,
          )
      | inr other ↦ rw other (
        record {
          once = λ x. ground (arith, free x, metadata x, h.once x);
          in_range = λ x owned. (
            (h.in_range x (ground (arith, free x, metadata x, owned))).0,
            elim (Bool-cases (ltb x target)) [
              | inl front ↦ ground (arith, front)
              | inr behind ↦ absurd (
                  ground
                    (arith, behind, free x, metadata x, unused x (ground (arith, behind)), owned))
            ],
          );
          same_set = λ x. refl;
        },
        falls,
        unused,
        λ x front. (ground (arith, free x, front), ground (arith, metadata x, front)),
        stop,
      )
    ]
