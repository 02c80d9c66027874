-- ===== src/Engine/Internal/Lookup.antt =====
-- The child that the lookup in the page chooses is the one that the parsed page gives.
use hexxladb.Base.{
  ℕ, zero, suc, ◌+◌, ◌≡◌, refl, sym, ap, ◌∙◌, List, [], ◌∷◌, ◌++◌, Bool, Bool-cases, true, false,
  not, inl, inr, arith, length, length-append, get_or, if◌then◌else◌, ok, ◌>>=◌, >>=_assoc,
  >>=_same, ◌≤◌, ◌<◌, Result, err, StaysTrue, IsSplit, IsSplit-unique, search-IsSplit,
}
use hexxladb.Bytes.Order.{bytes_lt, LeBytes, bytes_lt-LeBytes}
use hexxladb.Engine.Errors.{EngineError}
use hexxladb.Engine.Page.{btree_header_size}
use hexxladb.Engine.Internal.{
  internal_of, internal_header, internal_entry, internal_loop, parse_internal_page, ptr_0, choose,
  lookup_internal_loop, lookup_internal_child, internal_pick_child, InternalData,
}

-- The choices over the separators and the pointers to their right.
choices : List ℕ → ℕ × Bool → List (List ℕ) → List ℕ → ℕ × Bool
choices key chosen [] ptrs = chosen
choices key chosen (k ∷ keys) [] = chosen
choices key chosen (k ∷ keys) (p ∷ ptrs) = choices key (choose key chosen k p) keys ptrs

choices-append :
    (key k : List ℕ) (p : ℕ) (chosen : ℕ × Bool) (keys : List (List ℕ)) (ptrs : List ℕ)
    → length keys ≡ length ptrs
    → choices key chosen (keys ++ k ∷ []) (ptrs ++ p ∷ [])
      ≡ choose key (choices key chosen keys ptrs) k p
unfolding choices
choices-append key k p chosen [] [] h = refl
choices-append key k p chosen [] (q ∷ ptrs) h = absurd (omega arith)
choices-append key k p chosen (j ∷ keys) [] h = absurd (omega arith)
choices-append key k p chosen (j ∷ keys) (q ∷ ptrs) h =
    choices-append key k p (choose key chosen j q) keys ptrs (omega arith)

-- After the first separator above the key nothing changes.
choices_done :
    (key : List ℕ) (child : ℕ) (keys : List (List ℕ)) (ptrs : List ℕ)
    → (choices key (child, false) keys ptrs).0 ≡ child
unfolding choices
choices_done key child [] ptrs = refl
choices_done key child (k ∷ keys) [] = refl
choices_done key child (k ∷ keys) (p ∷ ptrs) = choices_done key child keys ptrs

choose_above :
    (key k : List ℕ) (child p : ℕ)
    → bytes_lt key k ≡ true
    → choose key (child, true) k p ≡ (child, false)
choose_above key k child p h = ap (λ b. if not b then (p, true) else (child, false)) h

choose_below :
    (key k : List ℕ) (child p : ℕ)
    → bytes_lt key k ≡ false
    → choose key (child, true) k p ≡ (p, true)
choose_below key k child p h = ap (λ b. if not b then (p, true) else (child, false)) h

-- The index of the first separator above the key, or the number of separators.
unfoldable pub first_above : List (List ℕ) → List ℕ → ℕ
first_above [] key = 0
first_above (k ∷ keys) key = if bytes_lt key k then 0 else suc (first_above keys key)

choices-first_above :
    (key : List ℕ) (child : ℕ) (keys : List (List ℕ)) (ptrs : List ℕ)
    → length keys ≡ length ptrs
    → (choices key (child, true) keys ptrs).0 ≡ get_or (child ∷ ptrs) (first_above keys key) 0
unfolding choices first_above
choices-first_above key child [] ptrs h = refl
choices-first_above key child (k ∷ keys) [] h = absurd (omega arith)
choices-first_above key child (k ∷ keys) (p ∷ ptrs) h = elim (Bool-cases (bytes_lt key k)) [
  | inl above ↦
      ap (λ c. (choices key c keys ptrs).0) (choose_above key k child p above)
      ∙ choices_done key child keys ptrs
      ∙ sym (
          ap (λ b. get_or (child ∷ p ∷ ptrs) (if b then 0 else suc (first_above keys key)) 0) above)
  | inr below ↦
      ap (λ c. (choices key c keys ptrs).0) (choose_below key k child p below)
      ∙ choices-first_above key p keys ptrs (omega arith)
      ∙ sym (
          ap (λ b. get_or (child ∷ p ∷ ptrs) (if b then 0 else suc (first_above keys key)) 0) below)
]

-- The child that a parsed page gives.
unfoldable pub child_of : List ℕ → List ℕ × List (List ℕ) → ℕ
child_of key pk = get_or pk.0 (first_above pk.1 key) 0

loop_agrees :
    (n off : ℕ) (page key : List ℕ) (first : ℕ) (ptrs : List ℕ) (keys : List (List ℕ))
    (chosen : ℕ × Bool)
    → length keys ≡ length ptrs
    → chosen ≡ choices key (first, true) keys ptrs
    → lookup_internal_loop n page off key chosen
      ≡ (internal_loop n page off (first ∷ ptrs) keys >>= λ pk. ok (child_of key pk))
unfolding lookup_internal_loop internal_loop child_of
loop_agrees zero off page key first ptrs keys chosen h e =
    ap (λ c. ok c.0) e ∙ ap ok (choices-first_above key first keys ptrs h)
loop_agrees (suc n) off page key first ptrs keys chosen h e =
    >>=_same (internal_entry page off) _ _ (λ x.
      loop_agrees n x.2 page key first (ptrs ++ x.1 ∷ []) (keys ++ x.0 ∷ [])
        (choose key chosen x.0 x.1)
        (omega (arith, length-append keys (x.0 ∷ []), length-append ptrs (x.1 ∷ [])))
        (ap (λ c. choose key c x.0 x.1) e
          ∙ sym (choices-append key x.0 x.1 (first, true) keys ptrs h)))
    ∙ sym (>>=_assoc (internal_entry page off) _ _)

-- On every page, with its separators in any order.
pub lookup_internal_child-first_above :
    (page key : List ℕ)
    → lookup_internal_child page key
      ≡ (parse_internal_page page >>= λ d. ok (get_or d.ptrs (first_above d.keys key) 0))
unfolding lookup_internal_child parse_internal_page child_of
lookup_internal_child-first_above page key =
    let start = btree_header_size + 8 in
    >>=_same (internal_header page) _ _ (λ n.
      loop_agrees n start page key (ptr_0 page) [] [] (ptr_0 page, true) refl
        (unfold choices in refl)
      ∙ sym (
          >>=_assoc (internal_loop n page start (ptr_0 page ∷ []) [])
            (λ pk. ok (internal_of page pk)) (λ d. ok (get_or d.ptrs (first_above d.keys key) 0))))
    ∙ sym (>>=_assoc (internal_header page) _ _)

-- Separators in the order of bytes.Compare.
abbrev pub AreAscending : List (List ℕ) → Type 0
AreAscending keys =
    (i j : ℕ) → i ≤ j → j < length keys → LeBytes (get_or keys i []) (get_or keys j [])

-- Whether a separator is above the key.
abbrev is_above : List (List ℕ) → List ℕ → ℕ → Bool
is_above keys key j = bytes_lt key (get_or keys j [])

module _ (k : List ℕ) (keys : List (List ℕ)) (key : List ℕ) (at : ℕ) where
  below_suc :
      bytes_lt key k ≡ false
      → IsSplit (length keys) (is_above keys key) at
      → (j : ℕ) → j < suc at
      → is_above (k ∷ keys) key j ≡ false
  below_suc before rest zero under = before
  below_suc before rest (suc j) under = rest.below j (omega arith)

  above_suc :
      IsSplit (length keys) (is_above keys key) at
      → (j : ℕ) → suc at ≤ j
      → j < length (k ∷ keys)
      → is_above (k ∷ keys) key j ≡ true
  above_suc rest zero from to = absurd (omega arith)
  above_suc rest (suc j) from to = rest.above j (omega arith) (omega arith)

first_above-IsSplit :
    (keys : List (List ℕ)) (key : List ℕ)
    → StaysTrue (length keys) (is_above keys key)
    → IsSplit (length keys) (is_above keys key) (first_above keys key)
unfolding first_above
first_above-IsSplit [] key stays = record {
  inside = omega arith;
  below = λ k under. absurd (omega arith);
  above = λ k from to. absurd (omega arith);
}
first_above-IsSplit (k ∷ keys) key stays = elim (Bool-cases (bytes_lt key k)) [
  | inl here ↦ rw here (record {
    inside = omega arith;
    below = λ j under. absurd (omega arith);
    above = λ j from to. stays 0 j (omega arith) to here;
  })
  | inr before ↦
      let rest =
        first_above-IsSplit keys key
          (λ a b le to h. stays (suc a) (suc b) (omega arith) (omega arith) h) in
      rw before (record {
        inside = omega (arith, rest.inside);
        below = below_suc k keys key _ before rest;
        above = above_suc k keys key _ rest;
      })
]

ascending-StaysTrue :
    (keys : List (List ℕ)) (key : List ℕ)
    → AreAscending keys
    → StaysTrue (length keys) (is_above keys key)
ascending-StaysTrue keys key sorted a b le to h =
    bytes_lt-LeBytes key (get_or keys a []) (get_or keys b []) h (sorted a b le to)

-- On ascending separators the binary search finds the first one above the key.
internal_pick_child-first_above :
    (keys : List (List ℕ)) (key : List ℕ)
    → AreAscending keys
    → internal_pick_child keys key ≡ first_above keys key
unfolding internal_pick_child
internal_pick_child-first_above keys key sorted =
    let stays = ascending-StaysTrue keys key sorted in
    IsSplit-unique (length keys) (is_above keys key) _ _
      (search-IsSplit (length keys) (is_above keys key) stays) (first_above-IsSplit keys key stays)

-- For every key, and on every page whose separators ascend if it can be parsed: lookupInternalChild
-- gives the error that parseInternalPage gives, and where that gives a page, its pointer at the index
-- that internalPickChild finds by binary search.
pub lookup_internal_child-parse :
    (page key : List ℕ)
    → ((d : InternalData) → parse_internal_page page ≡ ok d → AreAscending d.keys)
    → lookup_internal_child page key
      ≡ (parse_internal_page page >>= λ d. ok (get_or d.ptrs (internal_pick_child d.keys key) 0))
lookup_internal_child-parse page key sorted =
    lookup_internal_child-first_above page key ∙ same (parse_internal_page page) sorted
  where
    same :
        (r : Result EngineError InternalData)
        → ((d : InternalData) → r ≡ ok d → AreAscending d.keys)
        → (r >>= λ d. ok (get_or d.ptrs (first_above d.keys key) 0))
          ≡ (r >>= λ d. ok (get_or d.ptrs (internal_pick_child d.keys key) 0))
    same (err x) asc = refl
    same (ok d) asc =
        ap (λ i. ok (get_or d.ptrs i 0))
          (sym (internal_pick_child-first_above d.keys key (asc d refl)))
