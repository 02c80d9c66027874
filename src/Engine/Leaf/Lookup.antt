-- ===== src/Engine/Leaf/Lookup.antt =====
-- The lookup in the page agrees with the parsed page.
use hexxladb.Base.{
  ℕ, zero, suc, ◌≡◌, refl, sym, ap, ◌∙◌, List, [], ◌∷◌, ◌++◌, Option, none, some, arith, length,
  length-append, if◌then◌else◌, ok, ◌>>=◌, >>=_assoc, >>=_same,
}
use hexxladb.Bytes.Slices.{bytes_equal}
use hexxladb.Engine.Page.{btree_header_size}
use hexxladb.Engine.Leaf.{
  leaf_of, leaf_header, leaf_entry, leaf_loop, parse_leaf_page, lookup_leaf_loop, lookup_leaf_value,
}

-- The value of the last entry with the key, or `found` if there is none.
unfoldable pub last_value :
    List ℕ → Option (List ℕ) → List (List ℕ) → List (List ℕ) → Option (List ℕ)
last_value key found [] vals = found
last_value key found (k ∷ keys) [] = found
last_value key found (k ∷ keys) (v ∷ vals) =
    last_value key (if bytes_equal k key then some v else found) keys vals

last_value-append :
    (key k v : List ℕ) (found : Option (List ℕ)) (keys vals : List (List ℕ))
    → length keys ≡ length vals
    → last_value key found (keys ++ k ∷ []) (vals ++ v ∷ [])
      ≡ (if bytes_equal k key then some v else last_value key found keys vals)
unfolding last_value
last_value-append key k v found [] [] h = refl
last_value-append key k v found [] (w ∷ vals) h = absurd (omega arith)
last_value-append key k v found (j ∷ keys) [] h = absurd (omega arith)
last_value-append key k v found (j ∷ keys) (w ∷ vals) h =
    last_value-append key k v (if bytes_equal j key then some w else found) keys vals (omega arith)

-- What the loop of the lookup returns, from what the loop of the parser returns.
loop_agrees :
    (n off : ℕ) (page key : List ℕ) (keys vals : List (List ℕ)) (found : Option (List ℕ))
    → length keys ≡ length vals
    → found ≡ last_value key none keys vals
    → lookup_leaf_loop n page off key found
      ≡ (leaf_loop n page off keys vals >>= λ kv. ok (last_value key none kv.0 kv.1))
unfolding lookup_leaf_loop leaf_loop
loop_agrees zero off page key keys vals found h e = ap ok e
loop_agrees (suc n) off page key keys vals found h e =
    >>=_same (leaf_entry page off) _ _ (λ x.
      loop_agrees n x.2 page key (keys ++ x.0 ∷ []) (vals ++ x.1 ∷ [])
        (if bytes_equal x.0 key then some x.1 else found)
        (omega (arith, length-append keys (x.0 ∷ []), length-append vals (x.1 ∷ [])))
        (ap (λ f. if bytes_equal x.0 key then some x.1 else f) e
          ∙ sym (last_value-append key x.0 x.1 none keys vals h)))
    ∙ sym (>>=_assoc (leaf_entry page off) _ _)

-- On every page, sound or not, and for every key, lookupLeafValue gives the error that parseLeafPage
-- gives, and where that gives a leaf, the value of the leaf's last entry with the key, or nothing if
-- no entry has it.
pub lookup_leaf_value-parse :
    (page key : List ℕ)
    → lookup_leaf_value page key
      ≡ (parse_leaf_page page >>= λ d. ok (last_value key none d.keys d.vals))
unfolding lookup_leaf_value parse_leaf_page
lookup_leaf_value-parse page key =
    let start = btree_header_size in
    >>=_same (leaf_header page) _ _ (λ n.
      loop_agrees n start page key [] [] none refl (unfold last_value in refl)
      ∙ sym (
          >>=_assoc (leaf_loop n page start [] []) (λ kv. ok (leaf_of page kv))
            (λ d. ok (last_value key none d.keys d.vals))))
    ∙ sym (>>=_assoc (leaf_header page) _ _)
