-- ===== src/Bytes/BigEndian.antt =====
-- `encoding/binary`: big-endian unsigned integers of n bytes.
use hexxladb.Base.{
  ℕ, zero, suc, ◌+◌, ◌*◌, ◌/◌, ◌%◌, ◌^◌, ◌<◌, ◌≡◌, refl, sym, ap, ap₂, ◌∙◌, List, [], ◌∷◌, ◌++◌,
  take, drop, arith, length,
}
use native.Mathlib.Nat.{
  mod-add-div', add-mul-div_right, div-eq_of_lt, add-mul-mod_self_right, mul-le-mul_right,
  mod-eq_of_lt, mod-lt, mod-one, pow-suc,
}

-- binary.BigEndian.PutUint{8·n}: the n lowest bytes of v, highest first.
unfoldable pub be : ℕ → ℕ → List ℕ
be zero v = []
be (suc n) v = (v / 256 ^ n % 256) ∷ be n v

-- binary.BigEndian.Uint{8·n} of a slice of n bytes.
unfoldable pub of_be : List ℕ → ℕ
of_be [] = 0
of_be (b ∷ bs) = b * 256 ^ length bs + of_be bs

pub length-be : (n v : ℕ) → length (be n v) ≡ n
unfolding be
length-be zero v = refl
length-be (suc n) v = omega (arith, length-be n v)

pub pow256_pos : (n : ℕ) → 0 < 256 ^ n
pow256_pos zero = omega arith
pow256_pos (suc n) = rw pow-suc (omega (arith, pow256_pos n))

-- One more byte: the remainder by w * 256 is the next byte and the remainder by w.
pub mod_high : (v w : ℕ) → 0 < w → v % (w * 256) ≡ v / w % 256 * w + v % w
mod_high v w p =
    let q = v / w in
    let r = q % 256 * w + v % w in
    let whole : v ≡ r + q / 256 * (w * 256) =
      omega (arith, mod-add-div' v w, ap (λ (t : ℕ). t * w) (mod-add-div' q 256)) in
    let small : r < w * 256 = grind (arith, mod-lt v p, mod-lt q {m = 256} (omega arith)) in
    ap (λ (t : ℕ). t % (w * 256)) whole
    ∙ add-mul-mod_self_right r (q / 256) (w * 256)
    ∙ mod-eq_of_lt small

pub of_be-be_mod : (n v : ℕ) → of_be (be n v) ≡ v % 256 ^ n
unfolding be of_be
of_be-be_mod zero v = omega (arith, mod-one v)
of_be-be_mod (suc n) v =
    rw (length-be n v, of_be-be_mod n v, pow-suc) (sym (mod_high v (256 ^ n) (pow256_pos n)))

-- A number that fits n bytes is read back.
pub of_be-be : (n v : ℕ) → v < 256 ^ n → of_be (be n v) ≡ v
of_be-be n v h = of_be-be_mod n v ∙ mod-eq_of_lt h

abbrev pub IsByte : ℕ → Type 0
IsByte b = b < 256

-- Every byte of a string is below 256.
abbrev pub AllBytes : List ℕ → Type 0
AllBytes [] = Unit
AllBytes (b ∷ bs) = IsByte b × AllBytes bs

pub append-AllBytes : (xs ys : List ℕ) → AllBytes xs → AllBytes ys → AllBytes (xs ++ ys)
append-AllBytes [] ys h k = k
append-AllBytes (x ∷ xs) ys (hx, h) k = (hx, append-AllBytes xs ys h k)

pub take-AllBytes : (n : ℕ) (xs : List ℕ) → AllBytes xs → AllBytes (take n xs)
take-AllBytes zero xs h = tt
take-AllBytes (suc n) [] h = tt
take-AllBytes (suc n) (x ∷ xs) (hx, h) = (hx, take-AllBytes n xs h)

pub drop-AllBytes : (n : ℕ) (xs : List ℕ) → AllBytes xs → AllBytes (drop n xs)
drop-AllBytes zero xs h = h
drop-AllBytes (suc n) [] h = tt
drop-AllBytes (suc n) (x ∷ xs) (hx, h) = drop-AllBytes n xs h

pub be-AllBytes : (n v : ℕ) → AllBytes (be n v)
unfolding be
be-AllBytes zero v = tt
be-AllBytes (suc n) v = (omega arith, be-AllBytes n v)

-- What stands above the n bytes is not written.
be_high : (n v x : ℕ) → be n (v + x * 256 ^ n) ≡ be n v
unfolding be
be_high zero v x = refl
be_high (suc n) v x =
    let regroup : v + x * 256 ^ suc n ≡ v + x * 256 * 256 ^ n = rw pow-suc (omega arith) in
    let quotient = add-mul-div_right v (x * 256) (pow256_pos n) in
    rw regroup (ap₂ ◌∷◌ (rw quotient (omega arith)) (be_high n v (x * 256)))

pub of_be_lt : (bs : List ℕ) → AllBytes bs → of_be bs < 256 ^ length bs
unfolding of_be
of_be_lt [] h = omega arith
of_be_lt (b ∷ bs) (hb, hbs) =
    rw pow-suc (grind (arith, of_be_lt bs hbs, mul-le-mul_right (256 ^ length bs) hb))

-- A slice of n bytes is what its number is written as.
pub be-of_be : (bs : List ℕ) → AllBytes bs → be (length bs) (of_be bs) ≡ bs
unfolding be of_be
be-of_be [] h = refl
be-of_be (b ∷ bs) (hb, hbs) =
    let w = 256 ^ length bs in
    let below = of_be_lt bs hbs in
    let swap : b * w + of_be bs ≡ of_be bs + b * w = omega arith in
    let high : (of_be bs + b * w) / w % 256 ≡ b =
      rw (add-mul-div_right (of_be bs) b (pow256_pos (length bs)), div-eq_of_lt below)
        (omega arith) in
    rw swap (ap₂ ◌∷◌ high (be_high (length bs) (of_be bs) b ∙ be-of_be bs hbs))
