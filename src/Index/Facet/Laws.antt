-- ===== src/Index/Facet/Laws.antt =====
-- Facet keys are read back, and the range over a cell meets all of its facets and no others.
use hexxladb.Base.{
  ℕ, zero, suc, ◌-◌, ◌^◌, ◌≤◌, ◌<◌, ◌≡◌, ◌↔◌, refl, sym, ap, ◌∙◌, List, [], ◌∷◌, ◌++◌, append_assoc,
  append-nil, some, arith, length, length-append, take, drop, get_or, ltb, false, ok, ok_path,
  pair_path,
}
use hexxladb.Bytes.BigEndian.{be, length-be, of_be-be}
use hexxladb.Bytes.Order.{bytes_compare, LeBytes, LeBytes-be, InRange, InRange-append, same_head}
use hexxladb.Bytes.Slices.{cut_prefix-append, take-front, drop-front}
use hexxladb.Lattice.PackedCoord.{PackedCoord, IsWords}
use hexxladb.Index.Packed.{
  packed_be, of_packed_be, length-packed_be, of_packed_be-packed_be, packed_be_injective,
}
use hexxladb.Index.Facet.{
  facet_prefix, facet_key, facet_key_with_version, facet_cell_all_versions_range, parse_facet_key,
  parse_facet_rest, facet_commit_seq, parse_facet_commit_seq,
}

-- A facet's key up to the separator, and what follows it there.
abbrev facet_head : PackedCoord → List ℕ
facet_head p = facet_prefix ++ packed_be p

abbrev facet_tail : ℕ → ℕ → List ℕ
facet_tail facet_id s = b'/' ∷ facet_id ∷ be 8 s

versioned_key :
    (p : PackedCoord) (facet_id s : ℕ)
    → facet_id ≤ 5
    → facet_key_with_version p facet_id s ≡ ok (facet_head p ++ facet_tail facet_id s)
unfolding facet_key_with_version facet_key
versioned_key p facet_id s h =
    let inside : ltb 5 facet_id ≡ false = ground arith in
    rw inside (
      ap ok (
        append_assoc facet_prefix (packed_be p ++ b'/' ∷ facet_id ∷ []) (be 8 s)
        ∙ ap (λ t. facet_prefix ++ t) (append_assoc (packed_be p) (b'/' ∷ facet_id ∷ []) (be 8 s))
        ∙ sym (append_assoc facet_prefix (packed_be p) (facet_tail facet_id s))))

range_lem :
    (p : PackedCoord)
    → facet_cell_all_versions_range p
      ≡ ok (facet_head p ++ facet_tail 0 0, facet_head p ++ facet_tail 5 (2 ^ 64 - 1))
unfolding facet_cell_all_versions_range
range_lem p = rw (versioned_key p 0 0 (omega arith), versioned_key p 5 (2 ^ 64 - 1) (omega arith))

lower_tail : (facet_id s : ℕ) → s < 2 ^ 64 → LeBytes (facet_tail 0 0) (facet_tail facet_id s)
unfolding bytes_compare
lower_tail facet_id s h = ground (arith, LeBytes-be 8 0 s (omega arith) h)

upper_tail :
    (facet_id s : ℕ)
    → facet_id ≤ 5
    → s < 2 ^ 64
    → LeBytes (facet_tail facet_id s) (facet_tail 5 (2 ^ 64 - 1))
unfolding bytes_compare
upper_tail facet_id s h k = ground (arith, LeBytes-be 8 s (2 ^ 64 - 1) (omega arith) (omega arith))

get_or-front :
    (n : ℕ) (xs : List ℕ) (y : ℕ) (ys : List ℕ) → length xs ≡ n → get_or (xs ++ y ∷ ys) n 0 ≡ y
get_or-front zero [] y ys h = refl
get_or-front zero (x ∷ xs) y ys h = absurd (omega arith)
get_or-front (suc n) [] y ys h = absurd (omega arith)
get_or-front (suc n) (x ∷ xs) y ys h = get_or-front n xs y ys (omega arith)

parse_facet_rest_lem :
    (p : PackedCoord) (facet_id : ℕ) (end : List ℕ)
    → IsWords p
    → facet_id ≤ 5
    → length end ≡ 8
    → parse_facet_rest (some (packed_be p ++ b'/' ∷ facet_id ∷ end)) ≡ ok (p, facet_id)
unfolding parse_facet_rest
parse_facet_rest_lem p facet_id end w h l =
    let rest = packed_be p ++ b'/' ∷ facet_id ∷ end in
    let size : length rest ≡ 26 =
      omega (arith, length-append (packed_be p) (b'/' ∷ facet_id ∷ end), length-packed_be p, l) in
    let separator : get_or rest 16 0 ≡ b'/' =
      get_or-front 16 (packed_be p) b'/' (facet_id ∷ end) (length-packed_be p) in
    let id : get_or rest 17 0 ≡ facet_id =
      ap (λ t. get_or t 17 0) (sym (append_assoc (packed_be p) (b'/' ∷ []) (facet_id ∷ end)))
      ∙ get_or-front 17 (packed_be p ++ b'/' ∷ []) facet_id end
          (omega (arith, length-append (packed_be p) (b'/' ∷ []), length-packed_be p)) in
    let inside : ltb 5 facet_id ≡ false = ground arith in
    let front : take 16 rest ≡ packed_be p =
      take-front 16 (packed_be p) (b'/' ∷ facet_id ∷ end) (length-packed_be p) in
    let back : of_packed_be (packed_be p) ≡ p =
      ap of_packed_be (sym (append-nil (packed_be p))) ∙ of_packed_be-packed_be p [] w in
    rw (size, separator, id, inside, front, back)

parse_facet_key_lem :
    (p : PackedCoord) (facet_id s : ℕ)
    → IsWords p
    → facet_id ≤ 5
    → parse_facet_key (facet_head p ++ facet_tail facet_id s) ≡ ok (p, facet_id)
unfolding parse_facet_key
parse_facet_key_lem p facet_id s w h =
    rw
      (
        append_assoc facet_prefix (packed_be p) (facet_tail facet_id s),
        cut_prefix-append facet_prefix (packed_be p ++ facet_tail facet_id s),
      )
      (parse_facet_rest_lem p facet_id (be 8 s) w h (length-be 8 s))

parse_facet_commit_seq_lem :
    (p : PackedCoord) (facet_id s : ℕ)
    → IsWords p
    → facet_id ≤ 5
    → s < 2 ^ 64
    → parse_facet_commit_seq (facet_head p ++ facet_tail facet_id s) ≡ some s
unfolding parse_facet_commit_seq facet_commit_seq
parse_facet_commit_seq_lem p facet_id s w h b =
    let key = facet_head p ++ facet_tail facet_id s in
    let size : length key ≡ 32 = omega (
      arith,
      length-append (facet_head p) (facet_tail facet_id s),
      length-append facet_prefix (packed_be p),
      length-packed_be p,
      length-be 8 s,
    ) in
    let front = facet_head p ++ b'/' ∷ facet_id ∷ [] in
    let split : key ≡ front ++ be 8 s =
      sym (append_assoc (facet_head p) (b'/' ∷ facet_id ∷ []) (be 8 s)) in
    let last : drop 24 key ≡ be 8 s =
      ap (drop 24) split
      ∙ drop-front 24 front (be 8 s) (
          omega (
            arith,
            length-append (facet_head p) (b'/' ∷ facet_id ∷ []),
            length-append facet_prefix (packed_be p),
            length-packed_be p,
          )) in
    ap (facet_commit_seq key) (parse_facet_key_lem p facet_id s w h)
    ∙ rw (size, last, of_be-be 8 s b)

-- For a coordinate of 64-bit words, a facet up to 5 and a 64-bit commit sequence there is a versioned
-- key, from which the coordinate and the facet, and the commit sequence, are read back.
pub parse-facet_key_with_version :
    (p : PackedCoord) (facet_id s : ℕ)
    → IsWords p
    → facet_id ≤ 5
    → s < 2 ^ 64
    → (key : List ℕ) × (facet_key_with_version p facet_id s ≡ ok key)
      × (parse_facet_key key ≡ ok (p, facet_id))
      × (parse_facet_commit_seq key ≡ some s)
parse-facet_key_with_version p facet_id s w h b = (
  facet_head p ++ facet_tail facet_id s,
  versioned_key p facet_id s h,
  parse_facet_key_lem p facet_id s w h,
  parse_facet_commit_seq_lem p facet_id s w h b,
)

-- Of the versioned facet keys of all cells, of 64-bit words, facets up to 5 and 64-bit commit
-- sequences, the range over a cell holds exactly those of that cell.
pub facet_cell_all_versions_range-InRange :
    (p q : PackedCoord) (facet_id s : ℕ) {from to key : List ℕ}
    → IsWords p
    → IsWords q
    → facet_id ≤ 5
    → s < 2 ^ 64
    → facet_cell_all_versions_range p ≡ ok (from, to)
    → facet_key_with_version q facet_id s ≡ ok key
    → InRange from to key ↔ (p ≡ q)
facet_cell_all_versions_range-InRange p q facet_id s {from} {to} {key} w v h k er ek =
    let (ef, et) = pair_path (ok_path (sym (range_lem p) ∙ er)) in
    let e = ok_path (sym (versioned_key q facet_id s h) ∙ ek) in rw (← ef, ← et, ← e) (only, all)
  where
    only :
        InRange
          (facet_head p ++ facet_tail 0 0)
          (facet_head p ++ facet_tail 5 (2 ^ 64 - 1))
          (facet_head q ++ facet_tail facet_id s)
        → p ≡ q
    only r =
        let e =
          same_head (facet_head p) (facet_head q) (facet_tail 0 0) (facet_tail 5 (2 ^ 64 - 1))
            (facet_tail facet_id s)
            (omega (
              arith,
              length-append facet_prefix (packed_be p),
              length-append facet_prefix (packed_be q),
              length-packed_be p,
              length-packed_be q,
            ))
            r in
        packed_be_injective p q w v (cut e)
      where
        cut : facet_head p ≡ facet_head q → packed_be p ≡ packed_be q
        cut e = ap (drop 6) e

    all :
        p ≡ q
        → InRange
            (facet_head p ++ facet_tail 0 0)
            (facet_head p ++ facet_tail 5 (2 ^ 64 - 1))
            (facet_head q ++ facet_tail facet_id s)
    all e = rw (← e) (
        InRange-append (facet_head p) (facet_tail 0 0) (facet_tail 5 (2 ^ 64 - 1))
          (facet_tail facet_id s) (lower_tail facet_id s k) (upper_tail facet_id s h k))
