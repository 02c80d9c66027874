-- ===== src/Lattice/Packed/Weave.antt =====
-- Morton coding in plain arithmetic: the binary digits of three numbers in turn.
use hexxladb.Base.{ℕ, zero, suc, ◌+◌, ◌*◌, ◌/◌, ◌%◌, ◌^◌, ◌<◌, ◌≡◌, refl, sym, ap, ◌∙◌, arith}
use hexxladb.Base.Bits.{or_lowest}
use native.Mathlib.Nat.{
  pow-suc, mod-add-div', add-mul-mod_self_right, mod-eq_of_lt, mod-lt, div-div-eq-div-mul,
}
use Prim.Native.Nat.{bit_or, max}

unfoldable pub weave : ℕ → ℕ → ℕ → ℕ → ℕ
weave zero q r s = 0
weave (suc n) q r s = q % 2 + 2 * (r % 2) + 4 * (s % 2) + 8 * weave n (q / 2) (r / 2) (s / 2)

pub weave_bound : (n q r s : ℕ) → weave n q r s < 8 ^ n
unfolding weave
weave_bound zero q r s = omega arith
weave_bound (suc n) q r s = omega (arith, pow-suc 8 n, weave_bound n (q / 2) (r / 2) (s / 2))

or_eighth :
    (a b : ℕ)
    → bit_or a b
      ≡ max (a % 2) (b % 2)
        + 2 * max (a / 2 % 2) (b / 2 % 2)
        + 4 * max (a / 4 % 2) (b / 4 % 2)
        + 8 * bit_or (a / 8) (b / 8)
or_eighth a b =
    let a4 : a / 2 / 2 ≡ a / 4 = omega arith in
    let b4 : b / 2 / 2 ≡ b / 4 = omega arith in
    let a8 : a / 4 / 2 ≡ a / 8 = omega arith in
    let b8 : b / 4 / 2 ≡ b / 8 = omega arith in
    let second = rw (a4, b4) at (or_lowest (a / 2) (b / 2)) in
    let third = rw (a8, b8) at (or_lowest (a / 4) (b / 4)) in
    omega (arith, or_lowest a b, second, third)

join_q_r :
    (d e x y : ℕ)
    → d < 2
    → e < 2
    → bit_or (d + 8 * x) (2 * (e + 8 * y)) ≡ d + 2 * e + 8 * bit_or x (2 * y)
join_q_r d e x y h k =
    let a : (d + 8 * x) / 8 ≡ x = omega arith in
    let b : 2 * (e + 8 * y) / 8 ≡ 2 * y = omega arith in
    rw (or_eighth (d + 8 * x) (2 * (e + 8 * y)), a, b) (omega arith)

join_q_r_s :
    (d e f x y : ℕ)
    → d < 2
    → e < 2
    → f < 2
    → bit_or (d + 2 * e + 8 * x) (4 * (f + 8 * y)) ≡ d + 2 * e + 4 * f + 8 * bit_or x (4 * y)
join_q_r_s d e f x y h k l =
    let a : (d + 2 * e + 8 * x) / 8 ≡ x = omega arith in
    let b : 4 * (f + 8 * y) / 8 ≡ 4 * y = omega arith in
    rw (or_eighth (d + 2 * e + 8 * x) (4 * (f + 8 * y)), a, b) (omega arith)

-- `|` joins what the three numbers bring.
pub weave_q_r : (n q r : ℕ) → bit_or (weave n q 0 0) (2 * weave n r 0 0) ≡ weave n q r 0
unfolding weave
weave_q_r zero q r = refl
weave_q_r (suc n) q r =
    let x = weave n (q / 2) 0 0 in
    let y = weave n (r / 2) 0 0 in
    let a : q % 2 + 0 + 0 + 8 * x ≡ q % 2 + 8 * x = omega arith in
    let b : r % 2 + 0 + 0 + 8 * y ≡ r % 2 + 8 * y = omega arith in
    rw (a, b, join_q_r (q % 2) (r % 2) x y (omega arith) (omega arith), weave_q_r n (q / 2) (r / 2))
      (omega arith)

pub weave_q_r_s : (n q r s : ℕ) → bit_or (weave n q r 0) (4 * weave n s 0 0) ≡ weave n q r s
unfolding weave
weave_q_r_s zero q r s = refl
weave_q_r_s (suc n) q r s =
    let x = weave n (q / 2) (r / 2) 0 in
    let y = weave n (s / 2) 0 0 in
    let a : q % 2 + 2 * (r % 2) + 0 + 8 * x ≡ q % 2 + 2 * (r % 2) + 8 * x = omega arith in
    let b : s % 2 + 0 + 0 + 8 * y ≡ s % 2 + 8 * y = omega arith in
    rw (
      a,
      b,
      join_q_r_s (q % 2) (r % 2) (s % 2) x y (omega arith) (omega arith) (omega arith),
      weave_q_r_s n (q / 2) (r / 2) (s / 2),
    )

-- The rest by 2 * w is the lowest digit and twice the rest by w.
pub mod_lowest : (q w : ℕ) → 0 < w → q % (2 * w) ≡ q % 2 + 2 * (q / 2 % w)
mod_lowest q w h =
    let low = q % 2 + 2 * (q / 2 % w) in
    let whole : q ≡ low + q / 2 / w * (2 * w) = omega (arith, mod-add-div' (q / 2) w) in
    ap (λ (t : ℕ). t % (2 * w)) whole
    ∙ add-mul-mod_self_right low (q / 2 / w) (2 * w)
    ∙ mod-eq_of_lt (omega (arith, mod-lt (q / 2) h))

pow2_pos : (n : ℕ) → 0 < 2 ^ n
pow2_pos zero = omega arith
pow2_pos (suc n) = omega (arith, pow-suc 2 n, pow2_pos n)

pub mod_pow_lowest : (n q : ℕ) → q % 2 ^ suc n ≡ q % 2 + 2 * (q / 2 % 2 ^ n)
mod_pow_lowest n q =
    let twice : 2 ^ suc n ≡ 2 * 2 ^ n = omega (arith, pow-suc 2 n) in
    rw twice (mod_lowest q (2 ^ n) (pow2_pos n))

-- A weave of n digits reads n digits.
pub weave-mod : (n q r s : ℕ) → weave n (q % 2 ^ n) (r % 2 ^ n) (s % 2 ^ n) ≡ weave n q r s
unfolding weave
weave-mod zero q r s = refl
weave-mod (suc n) q r s =
    let low =
      λ (t : ℕ). let e : t % 2 ^ suc n % 2 ≡ t % 2 = omega (arith, mod_pow_lowest n t) in e in
    let rest = λ (t : ℕ).
      let e : t % 2 ^ suc n / 2 ≡ t / 2 % 2 ^ n = omega (arith, mod_pow_lowest n t) in e in
    rw (low q, low r, low s, rest q, rest r, rest s, weave-mod n (q / 2) (r / 2) (s / 2))

div_pow_suc : (n t : ℕ) → t / 2 ^ suc n ≡ t / 2 / 2 ^ n
div_pow_suc n t =
    let twice : 2 ^ suc n ≡ 2 * 2 ^ n = omega (arith, pow-suc 2 n) in
    rw twice (sym (div-div-eq-div-mul t 2 (2 ^ n)))

-- The digits from n on follow the first n.
pub weave-add :
    (n k q r s : ℕ)
    → weave (n + k) q r s ≡ weave n q r s + 8 ^ n * weave k (q / 2 ^ n) (r / 2 ^ n) (s / 2 ^ n)
unfolding weave
weave-add zero k q r s =
    let n : 0 + k ≡ k = omega arith in
    let one = λ (t : ℕ). let e : t / 1 ≡ t = omega arith in e in
    rw (n, one q, one r, one s) (omega arith)
weave-add (suc n) k q r s =
    let m : suc n + k ≡ suc (n + k) = omega arith in
    let twice : 8 ^ suc n ≡ 8 * 8 ^ n = omega (arith, pow-suc 8 n) in
    rw
      (
        m,
        div_pow_suc n q,
        div_pow_suc n r,
        div_pow_suc n s,
        twice,
        weave-add n k (q / 2) (r / 2) (s / 2),
      )
      (omega arith)
