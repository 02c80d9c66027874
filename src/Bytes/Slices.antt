-- ===== src/Bytes/Slices.antt =====
-- Go slices of bytes, and text constants as bytes.
use hexxladb.Base.{
  ℕ, zero, suc, ◌+◌, ◌-◌, ◌≡◌, refl, ap, List, [], ◌∷◌, ◌++◌, Option, none, some, Bool, true, false,
  arith, length, take, drop, ◌==◌, if◌then◌else◌, ◌&&◌,
}
use Prim.Native.Char.{code}
use Prim.Native.String.{String}

-- The bytes of an ASCII text.
abbrev pub codes : String → List ℕ
codes String.[] = []
codes (String.◌∷◌ c s) = code c ∷ codes s

-- xs[i:j]
abbrev pub slice : List ℕ → ℕ → ℕ → List ℕ
slice xs i j = take (j - i) (drop i xs)

-- bytes.Equal
pub bytes_equal : List ℕ → List ℕ → Bool
bytes_equal [] [] = true
bytes_equal [] (y ∷ ys) = false
bytes_equal (x ∷ xs) [] = false
bytes_equal (x ∷ xs) (y ∷ ys) = (x == y) && bytes_equal xs ys

pub bytes_equal_self : (xs : List ℕ) → bytes_equal xs xs ≡ true
unfolding bytes_equal
bytes_equal_self [] = refl
bytes_equal_self (x ∷ xs) = ground (arith, bytes_equal_self xs)

pub eq_of_bytes_equal : (xs ys : List ℕ) → bytes_equal xs ys ≡ true → xs ≡ ys
unfolding bytes_equal
eq_of_bytes_equal [] [] h = refl
eq_of_bytes_equal [] (y ∷ ys) h = cc
eq_of_bytes_equal (x ∷ xs) [] h = cc
eq_of_bytes_equal (x ∷ xs) (y ∷ ys) h = ground (arith, eq_of_bytes_equal xs ys)

-- bytes.CutPrefix: what follows the prefix, if the bytes begin with it.
unfoldable pub cut_prefix : List ℕ → List ℕ → Option (List ℕ)
cut_prefix [] xs = some xs
cut_prefix (p ∷ ps) [] = none
cut_prefix (p ∷ ps) (x ∷ xs) = if p == x then cut_prefix ps xs else none

pub cut_prefix-append : (ps xs : List ℕ) → cut_prefix ps (ps ++ xs) ≡ some xs
unfolding cut_prefix
cut_prefix-append [] xs = refl
cut_prefix-append (p ∷ ps) xs = ground (arith, cut_prefix-append ps xs)

pub append_of_cut_prefix : (ps xs : List ℕ) {r : List ℕ} → cut_prefix ps xs ≡ some r → xs ≡ ps ++ r
unfolding cut_prefix
append_of_cut_prefix [] xs h = ground arith
append_of_cut_prefix (p ∷ ps) [] h = cc
append_of_cut_prefix (p ∷ ps) (x ∷ xs) {r} h = ground (arith, append_of_cut_prefix ps xs {r = r})

-- The front part of a concatenation, whose length is known.
pub take-front : (n : ℕ) (xs ys : List ℕ) → length xs ≡ n → take n (xs ++ ys) ≡ xs
take-front zero [] ys h = refl
take-front zero (x ∷ xs) ys h = absurd (omega arith)
take-front (suc n) [] ys h = absurd (omega arith)
take-front (suc n) (x ∷ xs) ys h = ap (λ l. x ∷ l) (take-front n xs ys (omega arith))

pub drop-front : (n : ℕ) (xs ys : List ℕ) → length xs ≡ n → drop n (xs ++ ys) ≡ ys
drop-front zero [] ys h = refl
drop-front zero (x ∷ xs) ys h = absurd (omega arith)
drop-front (suc n) [] ys h = absurd (omega arith)
drop-front (suc n) (x ∷ xs) ys h = drop-front n xs ys (omega arith)

pub take-all : (n : ℕ) (xs : List ℕ) → length xs ≡ n → take n xs ≡ xs
take-all zero [] h = refl
take-all zero (x ∷ xs) h = absurd (omega arith)
take-all (suc n) [] h = absurd (omega arith)
take-all (suc n) (x ∷ xs) h = ap (λ l. x ∷ l) (take-all n xs (omega arith))

-- The middle part of a concatenation, from index i to index j.
pub slice_middle :
    (page front xs rest : List ℕ) (i j : ℕ)
    → page ≡ front ++ (xs ++ rest)
    → length front ≡ i
    → i + length xs ≡ j
    → slice page i j ≡ xs
slice_middle page front xs rest i j e l m =
    let width : j - i ≡ length xs = omega arith in
    rw (e, drop-front i front (xs ++ rest) l, width) (take-front (length xs) xs rest refl)
