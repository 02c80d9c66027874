-- ===== src/Engine/Words.antt =====
-- Fields of a page at fixed offsets, and arrays of 64-bit numbers: the writes that encodeHeaderPage
-- and encodeFreelistPage make one after the other, and the reads of decodeHeaderPage and
-- decodeFreelistPage.
use hexxladb.Base.{
  ℕ, zero, suc, ◌+◌, ◌-◌, ◌*◌, ◌^◌, ◌<◌, ◌≡◌, refl, sym, ap, ◌∙◌, List, [], ◌∷◌, ◌++◌, append_assoc,
  append-nil, arith, length, length-append, drop, take, get_or,
}
use hexxladb.Bytes.BigEndian.{be, of_be, length-be, of_be-be}
use hexxladb.Bytes.Slices.{slice, slice_middle}
use hexxladb.Engine.Page.{put, put_next, zeros}

-- The writes of fields, each with its offset, in their order.
unfoldable pub put_all : List ℕ → List (ℕ × List ℕ) → List ℕ
put_all page [] = page
put_all page ((off, bs) ∷ writes) = put_all (put page off bs) writes

-- The writes of words from index i on, of an array at base: for i, id := range ids.
unfoldable pub put_words : List ℕ → ℕ → ℕ → List ℕ → List ℕ
put_words page base i [] = page
put_words page base i (w ∷ words) = put_words (put page (base + i * 8) (be 8 w)) base (suc i) words

-- The reads of as many words as there are rounds, from index i on.
unfoldable pub get_words : ℕ → List ℕ → ℕ → ℕ → List ℕ
get_words zero page base i = []
get_words (suc rounds) page base i =
    of_be (slice page (base + i * 8) (base + i * 8 + 8)) ∷ get_words rounds page base (suc i)

-- The bytes of the fields.
abbrev pub fields_bytes : List (ℕ × List ℕ) → List ℕ
fields_bytes [] = []
fields_bytes ((off, bs) ∷ writes) = bs ++ fields_bytes writes

-- The bytes of the words.
abbrev pub words_bytes : List ℕ → List ℕ
words_bytes [] = []
words_bytes (w ∷ words) = be 8 w ++ words_bytes words

-- Each field begins where the last one ends.
abbrev pub AreAdjacent : ℕ → List (ℕ × List ℕ) → Type 0
AreAdjacent at [] = Unit
AreAdjacent at ((off, bs) ∷ writes) = (off ≡ at) × AreAdjacent (off + length bs) writes

abbrev pub offset_at : List (ℕ × List ℕ) → ℕ → ℕ
offset_at [] i = 0
offset_at ((off, bs) ∷ writes) zero = off
offset_at ((off, bs) ∷ writes) (suc i) = offset_at writes i

abbrev pub bytes_at : List (ℕ × List ℕ) → ℕ → List ℕ
bytes_at [] i = []
bytes_at ((off, bs) ∷ writes) zero = bs
bytes_at ((off, bs) ∷ writes) (suc i) = bytes_at writes i

-- All words are of 64 bits.
abbrev pub AllWords : List ℕ → Type 0
AllWords [] = Unit
AllWords (w ∷ words) = (w < 2 ^ 64) × AllWords words

pub put_all_lem :
    (writes : List (ℕ × List ℕ)) (front : List ℕ) (n at : ℕ)
    → length front ≡ at
    → AreAdjacent at writes
    → put_all (front ++ zeros n) writes
      ≡ (front ++ fields_bytes writes) ++ zeros (n - length (fields_bytes writes))
unfolding put_all
put_all_lem [] front n at l h =
    let same : n ≡ n - 0 = omega arith in
    let whole : front ≡ front ++ [] = sym (append-nil front) in
    ap (λ m. front ++ zeros m) same ∙ ap (λ f. f ++ zeros (n - 0)) whole
put_all_lem ((off, bs) ∷ writes) front n at l (e, h) =
    let ih =
      put_all_lem writes (front ++ bs) (n - length bs) (off + length bs)
        (omega (arith, length-append front bs)) h in
    let left : n - length bs - length (fields_bytes writes)
        ≡ n - length (bs ++ fields_bytes writes) =
      omega (arith, length-append bs (fields_bytes writes)) in
    rw (put_next front bs n off (omega arith)) (
      ih
      ∙ rw left (
          ap (λ f. f ++ zeros (n - length (bs ++ fields_bytes writes)))
            (append_assoc front bs (fields_bytes writes))))

pub field_at :
    (writes : List (ℕ × List ℕ)) (i : ℕ) (front rest : List ℕ) (at : ℕ)
    → length front ≡ at
    → AreAdjacent at writes
    → i < length writes
    → slice
        (front ++ (fields_bytes writes ++ rest))
        (offset_at writes i)
        (offset_at writes i + length (bytes_at writes i))
      ≡ bytes_at writes i
field_at [] i front rest at l h k = absurd (omega arith)
field_at ((off, bs) ∷ writes) zero front rest at l (e, h) k =
    slice_middle _ front bs (fields_bytes writes ++ rest) off (off + length bs)
      (ap (λ t. front ++ t) (append_assoc bs (fields_bytes writes) rest)) (omega arith) refl
field_at ((off, bs) ∷ writes) (suc i) front rest at l (e, h) k =
    let regroup : front ++ ((bs ++ fields_bytes writes) ++ rest)
        ≡ (front ++ bs) ++ (fields_bytes writes ++ rest) =
      simp append_assoc in
    ap (λ p. slice p (offset_at writes i) (offset_at writes i + length (bytes_at writes i))) regroup
    ∙ field_at writes i (front ++ bs) rest (off + length bs) (omega (arith, length-append front bs))
        h (omega arith)

pub length-words_bytes : (words : List ℕ) → length (words_bytes words) ≡ 8 * length words
length-words_bytes [] = refl
length-words_bytes (w ∷ words) =
    omega
      (arith, length-append (be 8 w) (words_bytes words), length-be 8 w, length-words_bytes words)

pub put_words_lem :
    (words front : List ℕ) (n base i : ℕ)
    → length front ≡ base + i * 8
    → put_words (front ++ zeros n) base i words
      ≡ (front ++ words_bytes words) ++ zeros (n - 8 * length words)
unfolding put_words
put_words_lem [] front n base i l =
    let same : n ≡ n - 0 = omega arith in
    let whole : front ≡ front ++ [] = sym (append-nil front) in
    ap (λ m. front ++ zeros m) same ∙ ap (λ f. f ++ zeros (n - 0)) whole
put_words_lem (w ∷ words) front n base i l =
    let ih =
      put_words_lem words (front ++ be 8 w) (n - length (be 8 w)) base (suc i)
        (omega (arith, length-append front (be 8 w), length-be 8 w)) in
    let left : n - length (be 8 w) - 8 * length words ≡ n - 8 * suc (length words) =
      omega (arith, length-be 8 w) in
    rw (put_next front (be 8 w) n (base + i * 8) l) (
      ih
      ∙ rw left (
          ap (λ f. f ++ zeros (n - 8 * suc (length words)))
            (append_assoc front (be 8 w) (words_bytes words))))

pub get_words_lem :
    (words front rest : List ℕ) (base i : ℕ)
    → length front ≡ base + i * 8
    → AllWords words
    → get_words (length words) (front ++ (words_bytes words ++ rest)) base i ≡ words
unfolding get_words
get_words_lem [] front rest base i l h = refl
get_words_lem (w ∷ words) front rest base i l (hw, h) =
    let tail = words_bytes words ++ rest in
    let e : front ++ ((be 8 w ++ words_bytes words) ++ rest) ≡ front ++ (be 8 w ++ tail) =
      simp append_assoc in
    let f : front ++ ((be 8 w ++ words_bytes words) ++ rest) ≡ (front ++ be 8 w) ++ tail =
      simp append_assoc in
    let first =
      slice_middle _ front (be 8 w) tail (base + i * 8) (base + i * 8 + 8) e l
        (omega (arith, length-be 8 w)) in
    let ih =
      get_words_lem words (front ++ be 8 w) rest base (suc i)
        (omega (arith, length-append front (be 8 w), length-be 8 w)) h in
    ap
      (λ b.
        of_be b
        ∷ get_words (length words) (front ++ ((be 8 w ++ words_bytes words) ++ rest)) base (suc i))
      first
    ∙ ap
        (λ b.
          b
          ∷ get_words (length words) (front ++ ((be 8 w ++ words_bytes words) ++ rest)) base
              (suc i))
        (of_be-be 8 w hw)
    ∙ ap (λ p. w ∷ get_words (length words) p base (suc i)) f
    ∙ ap (λ t. w ∷ t) ih

-- Where the last field ends.
abbrev pub end_of : ℕ → List (ℕ × List ℕ) → ℕ
end_of at [] = at
end_of at ((off, bs) ∷ writes) = end_of (off + length bs) writes

pub length-fields_bytes :
    (writes : List (ℕ × List ℕ)) (at : ℕ)
    → AreAdjacent at writes
    → at + length (fields_bytes writes) ≡ end_of at writes
length-fields_bytes [] at h = omega arith
length-fields_bytes ((off, bs) ∷ writes) at (e, h) =
    omega (
      arith,
      length-append bs (fields_bytes writes),
      length-fields_bytes writes (off + length bs) h,
    )

-- A number among the fields.
pub number_at :
    (writes : List (ℕ × List ℕ)) (i w v : ℕ) (rest : List ℕ)
    → AreAdjacent 0 writes
    → i < length writes
    → bytes_at writes i ≡ be w v
    → v < 256 ^ w
    → of_be (slice (fields_bytes writes ++ rest) (offset_at writes i) (offset_at writes i + w)) ≡ v
number_at writes i w v rest h k e b =
    let width : length (bytes_at writes i) ≡ w = ap length e ∙ length-be w v in
    ap
      (λ n.
        of_be (slice (fields_bytes writes ++ rest) (offset_at writes i) (offset_at writes i + n)))
      (sym width)
    ∙ ap of_be (field_at writes i [] rest 0 refl h k ∙ e)
    ∙ of_be-be w v b

-- An array of bytes among the fields.
pub array_at :
    (writes : List (ℕ × List ℕ)) (i w : ℕ) (rest : List ℕ)
    → AreAdjacent 0 writes
    → i < length writes
    → length (bytes_at writes i) ≡ w
    → slice (fields_bytes writes ++ rest) (offset_at writes i) (offset_at writes i + w)
      ≡ bytes_at writes i
array_at writes i w rest h k e =
    ap (λ n. slice (fields_bytes writes ++ rest) (offset_at writes i) (offset_at writes i + n))
      (sym e)
    ∙ field_at writes i [] rest 0 refl h k

-- A byte that is read by itself.
pub get_or-take_one :
    (page : List ℕ) (i m : ℕ) → take 1 (drop i page) ≡ m ∷ [] → get_or page i 0 ≡ m
get_or-take_one [] zero m h = cc
get_or-take_one [] (suc i) m h = cc
get_or-take_one (x ∷ page) zero m h = cc
get_or-take_one (x ∷ page) (suc i) m h = get_or-take_one page i m h
