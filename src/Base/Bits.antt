-- ===== src/Base/Bits.antt =====
-- Go's `|` on unsigned integers as arithmetic, where the operands share no bit.
use Prim.Native.Nat.{
  ℕ, zero, suc, ◌+◌, ◌*◌, ◌/◌, ◌%◌, ◌^◌, ◌≤◌, ◌<◌, max, bit_or, digits, bit_or-bitwise,
}
use mathlib.Core.Path.{◌≡◌, refl, sym, ap, ◌∙◌}
use native.Mathlib.Nat.{pow-suc}
use native.Mathlib.Omega.{arith}

abbrev or_digits : ℕ → ℕ → ℕ → ℕ
or_digits = digits (λ b. b) max

-- The fuel of the definition of `|` does not matter, once there is enough.
or_enough : (k l a b : ℕ) → a ≤ k → a ≤ l → or_digits k a b ≡ or_digits l a b
or_enough zero zero a b h h' = refl
or_enough zero (suc l) zero b h h' = refl
or_enough zero (suc l) (suc a) b h h' = absurd (omega arith)
or_enough (suc k) zero zero b h h' = refl
or_enough (suc k) zero (suc a) b h h' = absurd (omega arith)
or_enough (suc k) (suc l) zero b h h' = refl
or_enough (suc k) (suc l) (suc a) b h h' =
    let ih = or_enough k l (suc a / 2) (b / 2) (omega arith) (omega arith) in omega (arith, ih)

-- `|` works on the lowest digit and on the rest.
pub or_lowest : (a b : ℕ) → bit_or a b ≡ bit_or (a / 2) (b / 2) * 2 + max (a % 2) (b % 2)
or_lowest zero b = omega (arith, bit_or-bitwise 0 b, bit_or-bitwise 0 (b / 2))
or_lowest (suc a) b =
    let enough = or_enough a (suc a / 2) (suc a / 2) (b / 2) (omega arith) (omega arith) in
    omega (arith, enough, bit_or-bitwise (suc a) b, bit_or-bitwise (suc a / 2) (b / 2))

pub zero-or : (b : ℕ) → bit_or 0 b ≡ b
zero-or b = bit_or-bitwise 0 b

-- The bits below a shift stay, and `|` works above them.
pub or_above :
    (k low x y : ℕ) → low < 2 ^ k → bit_or (low + x * 2 ^ k) (y * 2 ^ k) ≡ low + bit_or x y * 2 ^ k
or_above zero low x y h =
    let none_below : low ≡ 0 = omega arith in
    let left : low + x * 1 ≡ x = omega arith in
    let right : y * 1 ≡ y = omega arith in rw (left, right) (omega arith)
or_above (suc k) low x y h =
    let w = 2 ^ k in
    let twice : 2 ^ suc k ≡ 2 * w = omega (arith, pow-suc 2 k) in
    let xs : x * 2 ^ suc k ≡ 2 * (x * w) = rw twice (omega arith) in
    let ys : y * 2 ^ suc k ≡ 2 * (y * w) = rw twice (omega arith) in
    let os : bit_or x y * 2 ^ suc k ≡ 2 * (bit_or x y * w) = rw twice (omega arith) in
    let a : (low + 2 * (x * w)) / 2 ≡ low / 2 + x * w = omega arith in
    let b : 2 * (y * w) / 2 ≡ y * w = omega arith in
    rw
      (
        xs,
        ys,
        os,
        or_lowest (low + 2 * (x * w)) (2 * (y * w)),
        a,
        b,
        or_above k (low / 2) x y (omega (arith, twice)),
      )
      (omega arith)

-- `|` of a number and a shifted one above it is their sum.
pub or_disjoint : (k low x : ℕ) → low < 2 ^ k → bit_or low (x * 2 ^ k) ≡ low + x * 2 ^ k
or_disjoint k low x h =
    let e : low + 0 * 2 ^ k ≡ low = omega arith in
    ap (λ (t : ℕ). bit_or t (x * 2 ^ k)) (sym e) ∙ or_above k low 0 x h ∙ rw zero-or refl
