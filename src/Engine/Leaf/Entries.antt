-- ===== src/Engine/Leaf/Entries.antt =====
-- The entries of a leaf, as the writer puts them and as the parser reads them.
use hexxladb.Base.{
  ℕ, suc, ◌+◌, ◌-◌, ◌*◌, ◌^◌, ◌≤◌, ◌<◌, ◌≡◌, refl, sym, ap, ◌∙◌, List, [], ◌∷◌, ◌++◌, append_assoc,
  append-nil, arith, length, length-append, ltb, false, ok,
}
use hexxladb.Bytes.BigEndian.{be, length-be, of_be-be}
use hexxladb.Bytes.Slices.{slice, slice_middle}
use hexxladb.Engine.Page.{uint16_from_int, put_next, zeros, length-zeros}
use hexxladb.Engine.Leaf.{leaf_entry, leaf_loop, put_leaf_entry, put_leaf_entries}

-- The bytes of an entry.
abbrev pub entry_bytes : List ℕ → List ℕ → List ℕ
entry_bytes k v = be 2 (length k) ++ (be 2 (length v) ++ (k ++ v))

-- The size of an entry.
abbrev pub entry_size : List ℕ → List ℕ → ℕ
entry_size k v = 4 + length k + length v

abbrev pub entries_bytes : List (List ℕ) → List (List ℕ) → List ℕ
entries_bytes [] vals = []
entries_bytes (k ∷ keys) [] = []
entries_bytes (k ∷ keys) (v ∷ vals) = entry_bytes k v ++ entries_bytes keys vals

abbrev pub entries_size : List (List ℕ) → List (List ℕ) → ℕ
entries_size [] vals = 0
entries_size (k ∷ keys) [] = 0
entries_size (k ∷ keys) (v ∷ vals) = entry_size k v + entries_size keys vals

-- As many keys as values, keys of 1 to 256 bytes and values of less than 2 ^ 16.
abbrev pub AreEntries : List (List ℕ) → List (List ℕ) → Type 0
AreEntries [] [] = Unit
AreEntries [] (v ∷ vals) = ⊥
AreEntries (k ∷ keys) [] = ⊥
AreEntries (k ∷ keys) (v ∷ vals) =
    (0 < length k) × (length k ≤ 256) × (length v < 2 ^ 16) × AreEntries keys vals

pub length-entry_bytes : (k v : List ℕ) → length (entry_bytes k v) ≡ entry_size k v
length-entry_bytes k v = omega (
  arith,
  length-append (be 2 (length k)) (be 2 (length v) ++ (k ++ v)),
  length-append (be 2 (length v)) (k ++ v),
  length-append k v,
  length-be 2 (length k),
  length-be 2 (length v),
)

put_leaf_entry_lem :
    (front k v : List ℕ) (n off : ℕ)
    → length front ≡ off
    → put_leaf_entry (front ++ zeros n) off k v (length k) (length v)
      ≡ (front ++ entry_bytes k v) ++ zeros (n - entry_size k v)
unfolding put_leaf_entry
put_leaf_entry_lem front k v n off h =
    let a = be 2 (length k) in
    let b = be 2 (length v) in
    let la = length-be 2 (length k) in
    let lb = length-be 2 (length v) in
    let n1 = n - length a in
    let n2 = n1 - length b in
    let n3 = n2 - length k in
    let size : n3 - length v ≡ n - entry_size k v = omega (arith, la, lb) in
    let nested : ((front ++ a) ++ b) ++ k ++ v ≡ front ++ entry_bytes k v = simp append_assoc in
    rw
      (
        put_next front a n off h,
        put_next (front ++ a) b n1 (off + 2) (omega (arith, length-append front a, la)),
        put_next ((front ++ a) ++ b) k n2 (off + 4)
            (omega (arith, length-append front a, length-append (front ++ a) b, la, lb)),
        put_next (((front ++ a) ++ b) ++ k) v n3 (off + 4 + length k) (
            omega (
              arith,
              length-append front a,
              length-append (front ++ a) b,
              length-append ((front ++ a) ++ b) k,
              la,
              lb,
            )),
        size,
      )
      (ap (λ l. l ++ zeros (n - entry_size k v)) (simp append_assoc))

pub put_leaf_entries_lem :
    (keys vals : List (List ℕ)) (front : List ℕ) (n off : ℕ)
    → AreEntries keys vals
    → length front ≡ off
    → entries_size keys vals ≤ n
    → put_leaf_entries (front ++ zeros n) off keys vals
      ≡ ok (front ++ (entries_bytes keys vals ++ zeros (n - entries_size keys vals)))
unfolding put_leaf_entries uint16_from_int
put_leaf_entries_lem [] vals front n off h l fits = ap (λ m. ok (front ++ zeros m)) (omega arith)
put_leaf_entries_lem (k ∷ keys) [] front n off h l fits = absurd h
put_leaf_entries_lem (k ∷ keys) (v ∷ vals) front n off (pos_key, small_key, small_val, h) l fits =
    let short : ltb 256 (length k) ≡ false = ground arith in
    let room : ltb (length (front ++ zeros n)) (off + 4 + length k + length v) ≡ false =
      ground (arith, length-append front (zeros n), length-zeros n) in
    let key_fits : ltb 65535 (length k) ≡ false = ground arith in
    let val_fits : ltb 65535 (length v) ≡ false = ground arith in
    let front' = front ++ entry_bytes k v in
    let rest = n - entry_size k v in
    let ih =
      put_leaf_entries_lem keys vals front' rest (off + 4 + length k + length v) h
        (omega (arith, length-append front (entry_bytes k v), length-entry_bytes k v))
        (omega arith) in
    let left : rest - entries_size keys vals ≡ n - entries_size (k ∷ keys) (v ∷ vals) =
      omega arith in
    rw (short, room, key_fits, val_fits, put_leaf_entry_lem front k v n off l)
      (ih
        ∙ ap ok (
            append_assoc front (entry_bytes k v)
              (entries_bytes keys vals ++ zeros (rest - entries_size keys vals))
            ∙ rw left (
                ap (λ t. front ++ t)
                  (sym (append_assoc (entry_bytes k v) (entries_bytes keys vals) _)))))

leaf_entry_lem :
    (front k v rest : List ℕ) (off : ℕ)
    → length front ≡ off
    → length k ≤ 256
    → length v < 2 ^ 16
    → leaf_entry (front ++ (entry_bytes k v ++ rest)) off ≡ ok (k, v, off + 4 + length k + length v)
unfolding leaf_entry
leaf_entry_lem front k v rest off l hk hv =
    let a = be 2 (length k) in
    let b = be 2 (length v) in
    let la = length-be 2 (length k) in
    let lb = length-be 2 (length v) in
    let page = front ++ (entry_bytes k v ++ rest) in
    let e0 : page ≡ front ++ (a ++ (b ++ (k ++ (v ++ rest)))) = simp append_assoc in
    let e1 : page ≡ (front ++ a) ++ (b ++ (k ++ (v ++ rest))) = simp append_assoc in
    let e2 : page ≡ (front ++ (a ++ b)) ++ (k ++ (v ++ rest)) = simp append_assoc in
    let e3 : page ≡ (front ++ (a ++ (b ++ k))) ++ (v ++ rest) = simp append_assoc in
    let at_key : slice page off (off + 2) ≡ a =
      slice_middle page front a (b ++ (k ++ (v ++ rest))) off (off + 2) e0 l (omega (arith, la)) in
    let at_val : slice page (off + 2) (off + 4) ≡ b =
      slice_middle page (front ++ a) b (k ++ (v ++ rest)) (off + 2) (off + 4) e1
        (omega (arith, length-append front a, la)) (omega (arith, lb)) in
    let key : slice page (off + 4) (off + 4 + length k) ≡ k =
      slice_middle page (front ++ (a ++ b)) k (v ++ rest) (off + 4) (off + 4 + length k) e2
        (omega (arith, length-append front (a ++ b), length-append a b, la, lb)) (omega arith) in
    let val : slice page (off + 4 + length k) (off + 4 + length k + length v) ≡ v =
      slice_middle page (front ++ (a ++ (b ++ k))) v rest (off + 4 + length k)
        (off + 4 + length k + length v) e3
        (omega (
          arith,
          length-append front (a ++ (b ++ k)),
          length-append a (b ++ k),
          length-append b k,
          la,
          lb,
        ))
        (omega arith) in
    let size : length page ≡ off + entry_size k v + length rest = omega (
      arith,
      length-append front (entry_bytes k v ++ rest),
      length-append (entry_bytes k v) rest,
      length-entry_bytes k v,
    ) in
    let whole_head : ltb (length page) (off + 4) ≡ false = ground (arith, size) in
    let short : ltb 256 (length k) ≡ false = ground arith in
    let whole : ltb (length page) (off + 4 + length k + length v) ≡ false = ground (arith, size) in
    rw (
      at_key,
      at_val,
      of_be-be 2 (length k) (omega arith),
      of_be-be 2 (length v) hv,
      whole_head,
      short,
      whole,
      key,
      val,
    )

pub leaf_loop_lem :
    (ks vs keys vals : List (List ℕ)) (front rest : List ℕ) (off : ℕ)
    → AreEntries keys vals
    → length front ≡ off
    → leaf_loop (length keys) (front ++ (entries_bytes keys vals ++ rest)) off ks vs
      ≡ ok (ks ++ keys, vs ++ vals)
unfolding leaf_loop
leaf_loop_lem ks vs [] [] front rest off h l = rw (append-nil ks, append-nil vs)
leaf_loop_lem ks vs [] (v ∷ vals) front rest off h l = absurd h
leaf_loop_lem ks vs (k ∷ keys) [] front rest off h l = absurd h
leaf_loop_lem ks vs (k ∷ keys) (v ∷ vals) front rest off (pos_key, small_key, small_val, h) l =
    let tail = entries_bytes keys vals ++ rest in
    let first : front ++ (entries_bytes (k ∷ keys) (v ∷ vals) ++ rest)
        ≡ front ++ (entry_bytes k v ++ tail) =
      ap (λ t. front ++ t) (append_assoc (entry_bytes k v) (entries_bytes keys vals) rest) in
    let second : front ++ (entry_bytes k v ++ tail) ≡ (front ++ entry_bytes k v) ++ tail =
      sym (append_assoc front (entry_bytes k v) tail) in
    let end = off + 4 + length k + length v in
    let ih =
      leaf_loop_lem (ks ++ k ∷ []) (vs ++ v ∷ []) keys vals (front ++ entry_bytes k v) rest end h
        (omega (arith, length-append front (entry_bytes k v), length-entry_bytes k v)) in
    rw (first, leaf_entry_lem front k v tail off l small_key small_val, second)
      (ih ∙ rw (append_assoc ks (k ∷ []) keys, append_assoc vs (v ∷ []) vals))

pub count_bound :
    (keys vals : List (List ℕ)) → AreEntries keys vals → 5 * length keys ≤ entries_size keys vals
count_bound [] vals h = omega arith
count_bound (k ∷ keys) [] h = absurd h
count_bound (k ∷ keys) (v ∷ vals) (a, b, c, h) = omega (arith, count_bound keys vals h)

pub same_length : (keys vals : List (List ℕ)) → AreEntries keys vals → length keys ≡ length vals
same_length [] [] h = refl
same_length [] (v ∷ vals) h = absurd h
same_length (k ∷ keys) [] h = absurd h
same_length (k ∷ keys) (v ∷ vals) (a, b, c, h) = ap suc (same_length keys vals h)
