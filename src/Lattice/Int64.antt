-- ===== src/Lattice/Int64.antt =====
-- Go's `int` and `int64`: 64-bit two's complement, every operation with its wrap-around.
use hexxladb.Base.{
  ℕ, ◌+◌, ◌-◌, ◌*◌, ◌/◌, ◌%◌, ◌^◌, ◌≤◌, ◌<◌, ◌≡◌, refl, Bool, arith, ltb, if◌then◌else◌,
}
use hexxladb.Base.Int.{
  ℤ, pos, negsuc, pos_part, neg_part, ◌+ℤ◌, ◌-ℤ◌, ◌*ℤ◌, ltb_ℤ, +ℤ_parts, -ℤ_parts, eq_of_parts,
}

-- uint64(z)
unfoldable pub to_uint64 : ℤ → ℕ
to_uint64 (pos n) = n % 2 ^ 64
to_uint64 (negsuc n) = 2 ^ 64 - 1 - n % 2 ^ 64

-- int64(u)
unfoldable pub of_uint64 : ℕ → ℤ
of_uint64 u = if ltb u (2 ^ 63) then pos u else negsuc (2 ^ 64 - 1 - u)

-- The value that 64 bits keep of an integer.
unfoldable pub wrap64 : ℤ → ℤ
unfolding of_uint64 to_uint64
wrap64 z = of_uint64 (to_uint64 z)

unfoldable pub add64 : ℤ → ℤ → ℤ
unfolding wrap64
add64 a b = wrap64 (a +ℤ b)

unfoldable pub sub64 : ℤ → ℤ → ℤ
unfolding wrap64
sub64 a b = wrap64 (a -ℤ b)

unfoldable pub neg64 : ℤ → ℤ
unfolding wrap64
neg64 a = wrap64 (pos 0 -ℤ a)

unfoldable pub mul64 : ℤ → ℤ → ℤ
unfolding wrap64
mul64 a b = wrap64 (a *ℤ b)

-- The integer is an int64.
abbrev pub InInt64 : ℤ → Type 0
InInt64 z = (pos_part z < 2 ^ 63 + neg_part z) × (neg_part z ≤ 2 ^ 63 + pos_part z)

pub wrap64_lem : (z : ℤ) → InInt64 z → wrap64 z ≡ z
unfolding wrap64
wrap64_lem (pos n) h = ground arith
wrap64_lem (negsuc n) h = ground arith

-- A sum, a difference and a negation that fit are exact.
pub add64_parts :
    (a b : ℤ)
    → pos_part a + pos_part b < 2 ^ 63 + neg_part a + neg_part b
    → neg_part a + neg_part b ≤ 2 ^ 63 + pos_part a + pos_part b
    → pos_part (add64 a b) + neg_part a + neg_part b
      ≡ neg_part (add64 a b) + pos_part a + pos_part b
unfolding add64
add64_parts a b h k = rw (wrap64_lem (a +ℤ b) (omega (arith, +ℤ_parts))) (omega (arith, +ℤ_parts))

pub sub64_parts :
    (a b : ℤ)
    → pos_part a + neg_part b < 2 ^ 63 + neg_part a + pos_part b
    → neg_part a + pos_part b ≤ 2 ^ 63 + pos_part a + neg_part b
    → pos_part (sub64 a b) + neg_part a + pos_part b
      ≡ neg_part (sub64 a b) + pos_part a + neg_part b
unfolding sub64
sub64_parts a b h k = rw (wrap64_lem (a -ℤ b) (omega (arith, -ℤ_parts))) (omega (arith, -ℤ_parts))

pub neg64_parts :
    (a : ℤ)
    → neg_part a < 2 ^ 63 + pos_part a
    → pos_part a ≤ 2 ^ 63 + neg_part a
    → pos_part (neg64 a) + pos_part a ≡ neg_part (neg64 a) + neg_part a
unfolding neg64
neg64_parts a h k = rw (wrap64_lem (pos 0 -ℤ a) (omega (arith, -ℤ_parts))) (omega (arith, -ℤ_parts))

pub ruleset int64_laws = (arith, add64_parts, sub64_parts, neg64_parts, eq_of_parts)
