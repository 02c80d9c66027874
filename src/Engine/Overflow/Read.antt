-- ===== src/Engine/Overflow/Read.antt =====
-- The loop of readOverflowChain reads what the pages of a chain hold.
use hexxladb.Base.{
  ℕ, zero, suc, ◌+◌, ◌-◌, ◌*◌, ◌/◌, ◌^◌, ◌≤◌, ◌<◌, ◌≡◌, refl, sym, ap, ◌∙◌, inl, inr, List, [], ◌∷◌,
  ◌++◌, append_assoc, append-nil, some, Bool-cases, true, false, arith, length, length-append,
  length-take, length-drop, take, drop, take-append-drop, ltb, ◌==◌, count, max, ok,
}
use native.Mathlib.Nat.{mod-add-div', mod-lt, mul-le-mul_right}
use hexxladb.Bytes.BigEndian.{of_be}
use hexxladb.Bytes.Slices.{slice, take-front}
use hexxladb.Engine.Page.{zeros}
use hexxladb.Engine.Pager.{Engine, WriteTxn}
use hexxladb.Engine.Overflow.{
  chain_page, chain_pages, chunk_of, next_of, read_loop, checked, read_overflow_chain,
}
use hexxladb.Engine.Overflow.Chain.{next-chain_page, payload-chain_page, Holds}

-- What the reader takes from a page is the part of the value that the page holds.
chunk_of_lem :
    (page_size next : ℕ) (value : List ℕ)
    → 8 ≤ page_size
    → chunk_of
        (chain_page page_size next (take (page_size - 8) value))
        (page_size - 8)
        (length value)
      ≡ take (page_size - 8) value
chunk_of_lem page_size next value large =
    let size = page_size - 8 in
    let chunk = take size value in
    let payload = payload-chain_page page_size next chunk (omega (arith, length-take size value)) in
    elim (Bool-cases (ltb (length value) size)) [
      | inl last ↦
          let all : chunk ≡ value = take-more size value (ground (arith, last)) in
          rw (last, payload)
            (take-front (length value) chunk (zeros (page_size - 8 - length chunk)) (ap length all))
      | inr full ↦
          let nothing : page_size - 8 - length chunk ≡ 0 =
            ground (arith, full, length-take size value) in
          rw (full, payload, nothing) (append-nil chunk)
    ]
  where
    take-more : (n : ℕ) (xs : List ℕ) → length xs ≤ n → take n xs ≡ xs
    take-more zero [] h = refl
    take-more zero (x ∷ xs) h = absurd (omega arith)
    take-more (suc n) [] h = refl
    take-more (suc n) (x ∷ xs) h = ap (λ l. x ∷ l) (take-more n xs (omega arith))

pub next_small :
    (ids : List ℕ) → ((x : ℕ) → 0 < count x ids → (0 < x) × (x < 2 ^ 64)) → next_of ids < 2 ^ 64
next_small [] range = omega arith
next_small (id ∷ ids) range = (range id (ground arith)).1

-- What a round takes from a whole page is no longer than what remains to be read.
pub length-chunk_of :
    (page : List ℕ) (chunk_size remaining : ℕ)
    → length page ≡ chunk_size + 8
    → length (chunk_of page chunk_size remaining) ≤ remaining
length-chunk_of page chunk_size remaining whole = elim (Bool-cases (ltb remaining chunk_size)) [
  | inl last ↦ rw last (omega (arith, length-take remaining (drop 8 page)))
  | inr full ↦ rw full (ground (arith, full, whole, length-drop 8 page))
]

-- The loop reads what the pages hold.
read_loop_lem :
    (ids : List ℕ) (e : Engine) (w : WriteTxn) (value result : List ℕ) (fuel : ℕ)
    → 8 ≤ e.page_size
    → ((x : ℕ) → 0 < count x ids → (0 < x) × (x < 2 ^ 64))
    → Holds e w ids value
    → length value ≤ length ids * (e.page_size - 8)
    → length ids < fuel
    → read_loop fuel e w (next_of ids) (length result + length value) result
      ≡ some (ok (result ++ value))
unfolding read_loop
read_loop_lem ids e w value result zero large range holds fits enough = absurd (omega arith)
read_loop_lem [] e w [] result (suc fuel) large range holds fits enough =
    ap (λ r. some (ok r)) (sym (append-nil result))
read_loop_lem [] e w (b ∷ value) result (suc fuel) large range holds fits enough =
    absurd (omega arith)
read_loop_lem (id ∷ ids) e w value result (suc fuel) large range (here, holds) fits enough =
    let size = e.page_size - 8 in
    let chunk = take size value in
    let rest = drop size value in
    let page = chain_page e.page_size (next_of ids) chunk in
    let others : (x : ℕ) → 0 < count x ids → (0 < x) × (x < 2 ^ 64) =
      λ x has. range x (ground (arith, has)) in
    let (pos, small) = range id (ground arith) in
    let not_end : (id == 0) ≡ false = ground arith in
    let next : of_be (slice page 0 8) ≡ next_of ids =
      next-chain_page e.page_size (next_of ids) chunk (omega (arith, length-take size value))
        (next_small ids others) in
    let remaining : length result + length value - length result ≡ length value = omega arith in
    let taken : chunk_of page size (length result + length value - length result) ≡ chunk =
      ap (chunk_of page size) remaining ∙ chunk_of_lem e.page_size (next_of ids) value large in
    let total : length result + length value ≡ length (result ++ chunk) + length rest = omega (
      arith,
      length-append result chunk,
      ap length (take-append-drop size value),
      length-append chunk rest,
    ) in
    let short : length rest ≤ length ids * size = grind (arith, fits, length-drop size value) in
    let ih =
      read_loop_lem ids e w rest (result ++ chunk) fuel large others holds short (omega arith) in
    rw (read_loop, not_end, here)
      (ap
          (λ n.
            read_loop fuel e w n (length result + length value)
              (result ++ chunk_of page size (length result + length value - length result)))
          next
        ∙ ap (λ c. read_loop fuel e w (next_of ids) (length result + length value) (result ++ c))
            taken
        ∙ ap (λ n. read_loop fuel e w (next_of ids) n (result ++ chunk)) total
        ∙ ih
        ∙ ap (λ v. some (ok v))
            (append_assoc result chunk rest ∙ ap (λ v. result ++ v) (take-append-drop size value)))

-- There are enough pages for the value.
pub enough_pages : (len size : ℕ) → 0 < size → len ≤ chain_pages len size * size
enough_pages len size pos =
    let t = len + size - 1 in
    let whole = mod-add-div' t size in
    let part = mod-lt t pos in
    let more : t / size * size ≤ max (t / size) 1 * size = mul-le-mul_right size (omega arith) in
    omega (arith, whole, part, more)

pub read_overflow_chain_lem :
    (ids : List ℕ) (e : Engine) (w : WriteTxn) (value : List ℕ)
    → 8 ≤ e.page_size
    → ((x : ℕ) → 0 < count x ids → (0 < x) × (x < 2 ^ 64))
    → Holds e w ids value
    → length value ≤ length ids * (e.page_size - 8)
    → read_overflow_chain (suc (length ids)) e w (next_of ids) (length value) ≡ some (ok value)
unfolding read_overflow_chain
read_overflow_chain_lem ids e w value large range holds fits =
    let read =
      read_loop_lem ids e w value [] (suc (length ids)) large range holds fits (omega arith) in
    let same : length value ≡ 0 + length value = omega arith in
    let whole : (length value == length value) ≡ true = ground arith in
    ap (λ n. checked (length value) (read_loop (suc (length ids)) e w (next_of ids) n [])) same
    ∙ ap (checked (length value)) read
    ∙ rw whole
