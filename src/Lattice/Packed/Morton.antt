-- ===== src/Lattice/Packed/Morton.antt =====
-- mortonPack63 and mortonUnpack63 against the arithmetic of Weave.antt, and against each other.
use hexxladb.Base.{
  ℕ, zero, suc, ◌+◌, ◌*◌, ◌/◌, ◌%◌, ◌^◌, ◌≤◌, ◌<◌, ◌≡◌, refl, sym, ◌∙◌, arith, true, ◌==◌, ==_iff,
}
use hexxladb.Base.Finite.{every_below, test_of_every_below}
use hexxladb.Base.Bits.{or_above, or_disjoint}
use hexxladb.Lattice.Packed.{
  shl64, morton_expand7, pack_pass, morton_pack63, unpack_loop, morton_unpack63,
}
use hexxladb.Lattice.Packed.Weave.{
  weave, weave_bound, weave_q_r, weave_q_r_s, weave-mod, weave-add, mod_pow_lowest,
}
use Prim.Native.Nat.{bit_or}
use native.Mathlib.Nat.{mod-eq_of_lt, pow-suc, mod-one, pow-le-pow_right, div-div-eq-div-mul}
use native.Mathlib.Numerals.{towards_suc}

expand7_table : every_below (λ b. morton_expand7 b == weave 7 b 0 0) 128 ≡ true
unfolding every_below morton_expand7 weave
expand7_table = refl

-- The table spreads seven bits.
morton_expand7_lem : (b : ℕ) → b < 128 → morton_expand7 b ≡ weave 7 b 0 0
morton_expand7_lem b h = (==_iff _ _).0 (test_of_every_below _ 128 b h expand7_table)

-- The three `|` of a round, without the wrap-around of the shifts.
three_fields :
    (k low q r s : ℕ)
    → low < 2 ^ k
    → bit_or
        (bit_or (bit_or low (weave 7 q 0 0 * 2 ^ k)) (2 * weave 7 r 0 0 * 2 ^ k))
        (4 * weave 7 s 0 0 * 2 ^ k)
      ≡ low + weave 7 q r s * 2 ^ k
three_fields k low q r s h = rw (
  or_disjoint k low (weave 7 q 0 0) h,
  or_above k low (weave 7 q 0 0) (2 * weave 7 r 0 0) h,
  weave_q_r 7 q r,
  or_above k low (weave 7 q r 0) (4 * weave 7 s 0 0) h,
  weave_q_r_s 7 q r s,
)

-- The bits that round `pass` takes from an axis.
abbrev seven : ℕ → ℕ → ℕ
seven pass x = x / 2 ^ (pass * 7) % 128

abbrev spread : ℕ → ℕ → ℕ
spread pass x = weave 7 (seven pass x) 0 0

expand_seven : (pass x : ℕ) → morton_expand7 (seven pass x) ≡ spread pass x
expand_seven pass x = morton_expand7_lem (seven pass x) (omega arith)

weave_single : (n q : ℕ) → 7 * weave n q 0 0 < 8 ^ n
unfolding weave
weave_single zero q = omega arith
weave_single (suc n) q = omega (arith, pow-suc 8 n, weave_single n (q / 2))

spread_bound : (q : ℕ) → weave 7 q 0 0 < 2 ^ 19
spread_bound q = omega (arith, weave_single 7 q)

-- A shift by k, k + 1 or k + 2 bits keeps a spread axis whole.
abbrev Shifts : ℕ → ℕ → Type 0
Shifts k x =
    (shl64 x k ≡ x * 2 ^ k) × (shl64 x (k + 1) ≡ 2 * x * 2 ^ k) × (shl64 x (k + 2) ≡ 4 * x * 2 ^ k)

shifts : (pass x : ℕ) → pass < 3 → x < 2 ^ 19 → Shifts (pass * 21) x
shifts zero x h b = omega arith
shifts (suc zero) x h b = omega arith
shifts (suc (suc zero)) x h b = omega arith
shifts (suc (suc (suc pass))) x h b = absurd (omega arith)

-- A round adds the digits of its seven bits above those of the rounds before.
pack_pass_lem :
    (pass q r s m : ℕ)
    → pass < 3
    → m < 2 ^ (pass * 21)
    → pack_pass pass q r s m
      ≡ m + weave 7 (seven pass q) (seven pass r) (seven pass s) * 2 ^ (pass * 21)
unfolding pack_pass
pack_pass_lem pass q r s m k h =
    rw
      (
        expand_seven pass q,
        expand_seven pass r,
        expand_seven pass s,
        (shifts pass (spread pass q) k (spread_bound _)).0,
        (shifts pass (spread pass r) k (spread_bound _)).1,
        (shifts pass (spread pass s) k (spread_bound _)).2,
      )
      (three_fields (pass * 21) m (seven pass q) (seven pass r) (seven pass s) h)

-- A round's digits are those of the weave from that position on.
seven-weave :
    (pass q r s : ℕ)
    → weave 7 (seven pass q) (seven pass r) (seven pass s)
      ≡ weave 7 (q / 2 ^ (pass * 7)) (r / 2 ^ (pass * 7)) (s / 2 ^ (pass * 7))
seven-weave pass q r s = weave-mod 7 (q / 2 ^ (pass * 7)) (r / 2 ^ (pass * 7)) (s / 2 ^ (pass * 7))

-- mortonPack63 interleaves 21 digits.
pub morton_pack63_lem : (q r s : ℕ) → morton_pack63 q r s ≡ weave 21 q r s
unfolding morton_pack63
morton_pack63_lem q r s =
    let digits = λ (pass : ℕ). weave 7 (seven pass q) (seven pass r) (seven pass s) in
    let bound = λ (pass : ℕ). weave_bound 7 (seven pass q) (seven pass r) (seven pass s) in
    rw
      (
        pack_pass_lem 0 q r s 0 (omega arith) (omega arith),
        pack_pass_lem 1 q r s (0 + digits 0 * 2 ^ 0) (omega arith) (omega (arith, bound 0)),
        pack_pass_lem 2 q r s (0 + digits 0 * 2 ^ 0 + digits 1 * 2 ^ 21) (omega arith)
            (omega (arith, bound 0, bound 1)),
      )
      (omega (arith, seven-weave 0 q r s, seven-weave 1 q r s, seven-weave 2 q r s, whole))
  where
    start : (n : ℕ) → n / 1 ≡ n
    start n = omega arith

    later : (n : ℕ) → n / 128 / 128 ≡ n / 16384
    later n = omega arith

    whole :
        weave 21 q r s
        ≡ weave 7 (q / 1) (r / 1) (s / 1)
          + 2 ^ 21 * weave 7 (q / 128) (r / 128) (s / 128)
          + 2 ^ 42 * weave 7 (q / 16384) (r / 16384) (s / 16384)
    whole =
        rw (start q, start r, start s, ← later q, ← later r, ← later s)
          (omega (arith, weave-add 7 14 q r s, weave-add 7 7 (q / 128) (r / 128) (s / 128)))

-- One digit joins the digits below it.
one_bit : (i low x : ℕ) → low < 2 ^ i → i < 63 → bit_or low (shl64 (x % 2) i) ≡ low + x % 2 * 2 ^ i
one_bit i low x h k =
    let narrow : x % 2 * 2 ^ i < 2 ^ 64 =
      grind (arith, pow-le-pow_right {n = 2} (omega arith) {i = i} {j = 63} (omega arith)) in
    rw (mod-eq_of_lt narrow) (or_disjoint i low (x % 2) h)

-- The digits read and one more fit one more bit.
grows : (i low x : ℕ) → low < 2 ^ i → low + x % 2 * 2 ^ i < 2 ^ (i + 1)
grows i low x h = simp towards_suc (grind arith)

div_deeper : (m j d e : ℕ) → 2 ^ e ≡ 2 ^ j * d → m / 2 ^ e ≡ m / 2 ^ j / d
div_deeper m j d e h = rw h (sym (div-div-eq-div-mul m (2 ^ j) d))

triple :
    {a b c a' b' c' : ℕ} → a ≡ a' → b ≡ b' → c ≡ c' → ◌≡◌ {A = ℕ × ℕ × ℕ} (a, b, c) (a', b', c')
triple p q r = λ i. (p i, q i, r i)

none_left : (i low x : ℕ) → low ≡ low + x % 2 ^ 0 * 2 ^ i
none_left i low x = rw (mod-one x) (omega arith)

-- What the loop has still to read is a weave, and each digit goes above those read.
unpack_loop_lem :
    (k i m a b c q r s : ℕ)
    → a < 2 ^ i
    → b < 2 ^ i
    → c < 2 ^ i
    → i + k ≤ 21
    → m / 2 ^ (3 * i) ≡ weave k q r s
    → unpack_loop k i m a b c
      ≡ (a + q % 2 ^ k * 2 ^ i, b + r % 2 ^ k * 2 ^ i, c + s % 2 ^ k * 2 ^ i)
unfolding unpack_loop
unpack_loop_lem zero i m a b c q r s ha hb hc hk e =
    triple (none_left i a q) (none_left i b r) (none_left i c s)
unpack_loop_lem (suc k) i m a b c q r s ha hb hc hk e =
    let j = 3 * i in
    let rest = weave k (q / 2) (r / 2) (s / 2) in
    let w : weave (suc k) q r s ≡ q % 2 + 2 * (r % 2) + 4 * (s % 2) + 8 * rest =
      unfold weave in refl in
    let one : m / 2 ^ (j + 1) ≡ m / 2 ^ j / 2 =
      div_deeper m j 2 (j + 1) (simp towards_suc (omega arith)) in
    let two : m / 2 ^ (j + 2) ≡ m / 2 ^ j / 4 =
      div_deeper m j 4 (j + 2) (simp towards_suc (omega arith)) in
    let next : m / 2 ^ (3 * (i + 1)) ≡ rest =
      let shift : 3 * (i + 1) ≡ suc (suc (suc j)) = omega arith in
      rw shift (
        div_deeper m j 8 (suc (suc (suc j)))
          (omega (arith, pow-suc 2 (suc (suc j)), pow-suc 2 (suc j), pow-suc 2 j))
        ∙ omega (arith, e, w)) in
    let bit_q : m / 2 ^ j % 2 ≡ q % 2 = omega (arith, e, w) in
    let bit_r : m / 2 ^ (j + 1) % 2 ≡ r % 2 = rw one (omega (arith, e, w)) in
    let bit_s : m / 2 ^ (j + 2) % 2 ≡ s % 2 = rw two (omega (arith, e, w)) in
    let twice : 2 ^ (i + 1) ≡ 2 * 2 ^ i = simp towards_suc (omega arith) in
    rw
      (
        bit_q,
        bit_r,
        bit_s,
        one_bit i a q ha (omega arith),
        one_bit i b r hb (omega arith),
        one_bit i c s hc (omega arith),
        unpack_loop_lem k (i + 1) m (a + q % 2 * 2 ^ i) (b + r % 2 * 2 ^ i) (c + s % 2 * 2 ^ i)
            (q / 2) (r / 2) (s / 2) (grows i a q ha) (grows i b r hb) (grows i c s hc) (omega arith)
            next,
        twice,
      )
      (triple (digit a q) (digit b r) (digit c s))
  where
    digit :
        (low x : ℕ)
        → low + x % 2 * 2 ^ i + x / 2 % 2 ^ k * (2 * 2 ^ i) ≡ low + x % 2 ^ suc k * 2 ^ i
    digit low x = rw (mod_pow_lowest k x) (omega arith)

-- mortonUnpack63 reads the digits of a weave.
pub morton_unpack63_lem :
    (q r s : ℕ) → morton_unpack63 (weave 21 q r s) ≡ (q % 2 ^ 21, r % 2 ^ 21, s % 2 ^ 21)
unfolding morton_unpack63
morton_unpack63_lem q r s =
    unpack_loop_lem 21 0 (weave 21 q r s) 0 0 0 q r s (omega arith) (omega arith) (omega arith)
      (omega arith) (omega arith)
    ∙ triple (omega arith) (omega arith) (omega arith)
