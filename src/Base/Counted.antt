-- ===== src/Base/Counted.antt =====
-- Lists of numbers as sets and as multisets: how often a number stands in a list.
use Prim.Native.Nat.{ℕ, zero, suc, ◌+◌, ◌≤◌, ◌<◌}
use mathlib.Core.Path.{◌≡◌, refl, ap, ◌∙◌}
use mathlib.Core.Logic.{inl, inr}
use mathlib.Core.Bool.{Bool, true, false}
use mathlib.Core.List.{List, [], ◌∷◌, ◌++◌}
use native.Mathlib.Omega.{arith}
use hexxladb.Base.Tests.{Bool-cases, ◌==◌, leb, ltb, if◌then◌else◌}
use hexxladb.Base.Lists.{length, take, drop}

-- How often x stands in the list.
abbrev pub count : ℕ → List ℕ → ℕ
count x [] = 0
count x (y ∷ ys) = if x == y then suc (count x ys) else count x ys

-- slices.Contains, and the test whether a map has the key.
unfoldable pub contains : ℕ → List ℕ → Bool
contains x [] = false
contains x (y ∷ ys) = if x == y then true else contains x ys

-- The removal of x.
unfoldable pub remove : ℕ → List ℕ → List ℕ
remove x [] = []
remove x (y ∷ ys) = if x == y then remove x ys else y ∷ remove x ys

insert_sorted : ℕ → List ℕ → List ℕ
insert_sorted x [] = x ∷ []
insert_sorted x (y ∷ ys) = if leb x y then x ∷ y ∷ ys else y ∷ insert_sorted x ys

-- slices.Sort
pub sort : List ℕ → List ℕ
sort [] = []
sort (x ∷ xs) = insert_sorted x (sort xs)

pub count-append : (x : ℕ) (xs ys : List ℕ) → count x (xs ++ ys) ≡ count x xs + count x ys
count-append x [] ys = omega arith
count-append x (z ∷ xs) ys = ground (arith, count-append x xs ys)

pub contains_count : (x : ℕ) (xs : List ℕ) → contains x xs ≡ ltb 0 (count x xs)
unfolding contains
contains_count x [] = refl
contains_count x (y ∷ ys) = ground (arith, contains_count x ys)

count-insert_sorted : (x y : ℕ) (ys : List ℕ) → count x (insert_sorted y ys) ≡ count x (y ∷ ys)
unfolding insert_sorted
count-insert_sorted x y [] = refl
count-insert_sorted x y (z ∷ ys) = ground (arith, count-insert_sorted x y ys)

pub count-sort : (x : ℕ) (xs : List ℕ) → count x (sort xs) ≡ count x xs
unfolding sort
count-sort x [] = refl
count-sort x (y ∷ xs) = ground (arith, count-insert_sorted x y (sort xs), count-sort x xs)

length-insert_sorted : (y : ℕ) (ys : List ℕ) → length (insert_sorted y ys) ≡ suc (length ys)
unfolding insert_sorted
length-insert_sorted y [] = refl
length-insert_sorted y (z ∷ ys) = ground (arith, length-insert_sorted y ys)

pub length-sort : (xs : List ℕ) → length (sort xs) ≡ length xs
unfolding sort
length-sort [] = refl
length-sort (y ∷ xs) = length-insert_sorted y (sort xs) ∙ ap suc (length-sort xs)

pub count-remove_self : (x : ℕ) (ys : List ℕ) → count x (remove x ys) ≡ 0
unfolding remove
count-remove_self x [] = refl
count-remove_self x (y ∷ ys) = ground (arith, count-remove_self x ys)

pub count-remove_ne :
    (x z : ℕ) (ys : List ℕ) → (z == x) ≡ false → count z (remove x ys) ≡ count z ys
unfolding remove
count-remove_ne x z [] h = refl
count-remove_ne x z (y ∷ ys) h = ground (arith, count-remove_ne x z ys h)

-- A list without repetitions gets at most one element shorter.
pub length-remove : (x : ℕ) (ys : List ℕ) → length ys ≤ count x ys + length (remove x ys)
unfolding remove
length-remove x [] = omega arith
length-remove x (y ∷ ys) = ground (arith, length-remove x ys)

-- No more than n different numbers are below n.
pub few_below :
    (n : ℕ) (xs : List ℕ)
    → ((x : ℕ) → count x xs ≤ 1)
    → ((x : ℕ) → 0 < count x xs → x < n)
    → length xs ≤ n
few_below zero [] once below = omega arith
few_below zero (x ∷ xs) once below = absurd (ground (arith, below x))
few_below (suc n) xs once below =
    let ih =
      few_below n (remove n xs)
        (λ x. ground (arith, once x, count-remove_ne n x xs, count-remove_self n xs))
        (λ x h. ground (arith, below x, count-remove_ne n x xs, count-remove_self n xs)) in
    omega (arith, length-remove n xs, once n, ih)

pub count-take-drop :
    (n x : ℕ) (xs : List ℕ) → count x (take n xs) + count x (drop n xs) ≡ count x xs
count-take-drop zero x xs = omega arith
count-take-drop (suc n) x [] = omega arith
count-take-drop (suc n) x (y ∷ xs) = ground (arith, count-take-drop n x xs)

-- Ascending.
abbrev pub IsSorted : List ℕ → Type 0
IsSorted [] = Unit
IsSorted (x ∷ xs) = ((y : ℕ) → 0 < count y xs → x ≤ y) × IsSorted xs

insert_sorted-IsSorted : (x : ℕ) (xs : List ℕ) → IsSorted xs → IsSorted (insert_sorted x xs)
unfolding insert_sorted
insert_sorted-IsSorted x [] h = (λ y has. absurd (omega arith), tt)
insert_sorted-IsSorted x (y ∷ ys) (least, h) = elim (Bool-cases (leb x y)) [
  | inl first ↦ rw first ((λ z has. ground (arith, first, least z, has)), (least, h))
  | inr later ↦ rw later (
    (λ z has. ground (arith, later, least z, has, count-insert_sorted z x ys)),
    insert_sorted-IsSorted x ys h,
  )
]

pub sort-IsSorted : (xs : List ℕ) → IsSorted (sort xs)
unfolding sort
sort-IsSorted [] = tt
sort-IsSorted (x ∷ xs) = insert_sorted-IsSorted x (sort xs) (sort-IsSorted xs)

pub drop-IsSorted : (n : ℕ) (xs : List ℕ) → IsSorted xs → IsSorted (drop n xs)
drop-IsSorted zero xs h = h
drop-IsSorted (suc n) [] h = tt
drop-IsSorted (suc n) (x ∷ xs) (least, h) = drop-IsSorted n xs h

insert_sorted-first :
    (x : ℕ) (xs : List ℕ) → ((y : ℕ) → 0 < count y xs → x ≤ y) → insert_sorted x xs ≡ x ∷ xs
unfolding insert_sorted
insert_sorted-first x [] h = refl
insert_sorted-first x (y ∷ ys) h = let first : leb x y ≡ true = ground (arith, h y) in rw first

pub sort_of_sorted : (xs : List ℕ) → IsSorted xs → sort xs ≡ xs
unfolding sort
sort_of_sorted [] h = refl
sort_of_sorted (x ∷ xs) (least, h) =
    ap (insert_sorted x) (sort_of_sorted xs h) ∙ insert_sorted-first x xs least
