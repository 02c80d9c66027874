-- ===== src/Base/Search.antt =====
-- sort.Search of Go's library, as its source documents it: a binary search for a test that changes from
-- false to true.
use Prim.Native.Nat.{ℕ, zero, suc, ◌+◌, ◌/◌, ◌≤◌, ◌<◌}
use mathlib.Core.Path.{◌≡◌, sym, ◌∙◌}
use mathlib.Core.Logic.{inl, inr}
use mathlib.Core.Bool.{Bool, true, false}
use native.Mathlib.Omega.{arith}
use hexxladb.Base.Tests.{Bool-cases, ltb, if◌then◌else◌}

-- Its loop over the indices from i on and below j; each round makes the range smaller.
unfoldable pub search_loop : (ℕ → Bool) → ℕ → ℕ → ℕ → ℕ
search_loop f zero i j = i
search_loop f (suc fuel) i j =
    let h = (i + j) / 2 in
    let found = search_loop f fuel (if f h then i else h + 1) (if f h then h else j) in
    if ltb i j then found else i

-- sort.Search; one round for each index is enough.
unfoldable pub search : ℕ → (ℕ → Bool) → ℕ
search n f = search_loop f n 0 n

true_ne_false : true ≡ false → ⊥
true_ne_false h = cc

-- Once the test holds, it holds at all indices behind.
abbrev pub StaysTrue : ℕ → (ℕ → Bool) → Type 0
StaysTrue n f = (a b : ℕ) → a ≤ b → b < n → f a ≡ true → f b ≡ true

-- The test is false in front of the index, and true from it on.
pub record IsSplit (n : ℕ) (f : ℕ → Bool) (at : ℕ) : Type 0 where
  pub inside : at ≤ n
  pub below : (k : ℕ) → k < at → f k ≡ false
  pub above : (k : ℕ) → at ≤ k → k < n → f k ≡ true

module _ (n : ℕ) (f : ℕ → Bool) (stays : StaysTrue n f) where
  search_loop-IsSplit :
      (fuel i j : ℕ)
      → i ≤ j
      → j ≤ i + fuel
      → j ≤ n
      → ((k : ℕ) → k < i → f k ≡ false)
      → ((k : ℕ) → j ≤ k → k < n → f k ≡ true)
      → IsSplit n f (search_loop f fuel i j)
  unfolding search_loop
  search_loop-IsSplit zero i j ordered enough inside low high = record {
    inside = omega arith;
    below = low;
    above = λ k from to. high k (omega arith) to;
  }
  search_loop-IsSplit (suc fuel) i j ordered enough inside low high = elim (Bool-cases (ltb i j)) [
    | inr empty ↦ rw empty (record {
      inside = omega arith;
      below = low;
      above = λ k from to. high k (ground (arith, empty, from)) to;
    })
    | inl wide ↦
        let h = (i + j) / 2 in
        let between : (i ≤ h) × (h < j) = ground (arith, wide) in
        elim (Bool-cases (f h)) [
          | inl hit ↦
              rw (wide, hit)
                (search_loop-IsSplit fuel i h (omega (arith, between)) (omega (arith, between))
                  (omega (arith, between)) low (λ k from to. stays h k from to hit))
          | inr miss ↦
              rw (wide, miss)
                (search_loop-IsSplit fuel (h + 1) j (omega (arith, between))
                  (omega (arith, between)) inside
                  (λ k under. elim (Bool-cases (f k)) [
                    | inr off ↦ off
                    | inl on ↦ absurd (
                        true_ne_false
                          (sym (stays k h (omega arith) (omega (arith, between)) on) ∙ miss))
                  ])
                  high)
        ]
  ]

  -- sort.Search finds where the test changes.
  pub search-IsSplit : IsSplit n f (search n f)
  unfolding search
  search-IsSplit =
      search_loop-IsSplit n 0 n (omega arith) (omega arith) (omega arith)
        (λ k under. absurd (omega arith)) (λ k from to. absurd (omega arith))

-- There is one such index only.
pub IsSplit-unique : (n : ℕ) (f : ℕ → Bool) (a b : ℕ) → IsSplit n f a → IsSplit n f b → a ≡ b
IsSplit-unique n f a b p q = elim (Bool-cases (ltb a b)) [
  | inl less ↦ absurd (
      true_ne_false (
        sym (p.above a (omega arith) (ground (arith, less, q.inside)))
        ∙ q.below a (ground (arith, less))))
  | inr other ↦ elim (Bool-cases (ltb b a)) [
    | inl more ↦ absurd (
        true_ne_false (
          sym (q.above b (omega arith) (ground (arith, more, p.inside)))
          ∙ p.below b (ground (arith, more))))
    | inr same ↦ ground (arith, other, same)
  ]
]
