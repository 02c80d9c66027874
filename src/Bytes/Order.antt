-- ===== src/Bytes/Order.antt =====
-- `bytes.Compare`, and the keys between two bounds.
use hexxladb.Base.{
  ℕ, zero, suc, ◌+◌, ◌*◌, ◌/◌, ◌%◌, ◌^◌, ◌≤◌, ◌<◌, ◌≡◌, ◌≢◌, refl, sym, ap, ap₂, ◌∙◌, List, [], ◌∷◌,
  ◌++◌, Bool, true, false, arith, length,
}
use hexxladb.Bytes.BigEndian.{be, pow256_pos, mod_high}
use Prim.Native.Nat.{compare, Ordering}
use native.Mathlib.Nat.{mul-le-mul_right, mod-eq_of_lt, mod-lt, mod-one, pow-suc}

-- The first difference decides.
abbrev pub then_by : Ordering → Ordering → Ordering
then_by Ordering.lt o = Ordering.lt
then_by Ordering.gt o = Ordering.gt
then_by Ordering.eq o = o

-- bytes.Compare
unfoldable pub bytes_compare : List ℕ → List ℕ → Ordering
bytes_compare [] [] = Ordering.eq
bytes_compare [] (y ∷ ys) = Ordering.lt
bytes_compare (x ∷ xs) [] = Ordering.gt
bytes_compare (x ∷ xs) (y ∷ ys) = then_by (compare x y) (bytes_compare xs ys)

digit_lt : (x y r w : ℕ) → x < y → r < w → x * w + r < y * w
digit_lt x y r w h k = let scaled : suc x * w ≤ y * w = mul-le-mul_right w h in omega arith

-- Numbers in base w compare by the high digit first.
compare_high :
    (x y r s w : ℕ)
    → r < w
    → s < w
    → compare (x * w + r) (y * w + s) ≡ then_by (compare x y) (compare r s)
compare_high x y r s w h k = ground (arith, digit_lt x y r w, digit_lt y x s w)

-- The order of the big-endian bytes is the order of the numbers.
compare-be_mod : (n a b : ℕ) → bytes_compare (be n a) (be n b) ≡ compare (a % 256 ^ n) (b % 256 ^ n)
unfolding be bytes_compare
compare-be_mod zero a b = rw (mod-one a, mod-one b)
compare-be_mod (suc n) a b =
    let p = pow256_pos n in
    rw (pow-suc, mod_high a (256 ^ n) p, mod_high b (256 ^ n) p, compare-be_mod n a b)
      (sym (
        compare_high (a / 256 ^ n % 256) (b / 256 ^ n % 256) _ _ (256 ^ n) (mod-lt a p)
          (mod-lt b p)))

pub compare-be :
    (n a b : ℕ) → a < 256 ^ n → b < 256 ^ n → bytes_compare (be n a) (be n b) ≡ compare a b
compare-be n a b h k = compare-be_mod n a b ∙ ap₂ compare (mod-eq_of_lt h) (mod-eq_of_lt k)

-- A common head does not count.
pub compare-append : (xs ys zs : List ℕ) → bytes_compare (xs ++ ys) (xs ++ zs) ≡ bytes_compare ys zs
unfolding bytes_compare
compare-append [] ys zs = refl
compare-append (x ∷ xs) ys zs = rw (compare-append xs ys zs) (ground arith)

-- Heads of one length are compared before what follows them.
pub compare-append_equal_length :
    (xs ys vs ws : List ℕ)
    → length xs ≡ length ys
    → bytes_compare (xs ++ vs) (ys ++ ws) ≡ then_by (bytes_compare xs ys) (bytes_compare vs ws)
unfolding bytes_compare
compare-append_equal_length [] [] vs ws h = refl
compare-append_equal_length [] (y ∷ ys) vs ws h = absurd (omega arith)
compare-append_equal_length (x ∷ xs) [] vs ws h = absurd (omega arith)
compare-append_equal_length (x ∷ xs) (y ∷ ys) vs ws h =
    rw (compare-append_equal_length xs ys vs ws (omega arith)) (ground arith)

abbrev flip : Ordering → Ordering
flip Ordering.lt = Ordering.gt
flip Ordering.gt = Ordering.lt
flip Ordering.eq = Ordering.eq

flip-compare : (a b : ℕ) → compare b a ≡ flip (compare a b)
flip-compare a b = ground arith

flip-then_by : (o p : Ordering) → flip (then_by o p) ≡ then_by (flip o) (flip p)
flip-then_by o p = ground arith

pub flip-bytes_compare : (xs ys : List ℕ) → bytes_compare ys xs ≡ flip (bytes_compare xs ys)
unfolding bytes_compare
flip-bytes_compare [] [] = refl
flip-bytes_compare [] (y ∷ ys) = refl
flip-bytes_compare (x ∷ xs) [] = refl
flip-bytes_compare (x ∷ xs) (y ∷ ys) =
    rw (flip-compare x y, flip-bytes_compare xs ys) (sym (flip-then_by (compare x y) _))

-- Equal in the order is equal.
pub eq_of_compare : (xs ys : List ℕ) → bytes_compare xs ys ≡ Ordering.eq → xs ≡ ys
unfolding bytes_compare
eq_of_compare [] [] h = refl
eq_of_compare [] (y ∷ ys) h = cc
eq_of_compare (x ∷ xs) [] h = cc
eq_of_compare (x ∷ xs) (y ∷ ys) h = ground (arith, eq_of_compare xs ys)

pub compare_self : (xs : List ℕ) → bytes_compare xs xs ≡ Ordering.eq
unfolding bytes_compare
compare_self [] = refl
compare_self (x ∷ xs) = ground (arith, compare_self xs)

-- xs is not after ys.
abbrev pub LeBytes : List ℕ → List ℕ → Type 0
LeBytes xs ys = bytes_compare xs ys ≢ Ordering.gt

-- The keys that a scan over the inclusive range from `from` to `to` meets.
abbrev pub InRange : List ℕ → List ℕ → List ℕ → Type 0
InRange from to k = LeBytes from k × LeBytes k to

pub LeBytes-append :
    (xs ys vs ws : List ℕ)
    → length xs ≡ length ys
    → LeBytes xs ys
    → LeBytes vs ws
    → LeBytes (xs ++ vs) (ys ++ ws)
LeBytes-append xs ys vs ws e h k =
    rw (compare-append_equal_length xs ys vs ws e) (ground (arith, h, k))

pub LeBytes-be : (n a b : ℕ) → a ≤ b → b < 256 ^ n → LeBytes (be n a) (be n b)
LeBytes-be n a b h k = rw (compare-be n a b (omega arith) k) (ground arith)

-- A key with the head of both bounds is met if its tail is between theirs.
pub InRange-append :
    (h from to t : List ℕ) → LeBytes from t → LeBytes t to → InRange (h ++ from) (h ++ to) (h ++ t)
InRange-append h from to t p q = (rw (compare-append h from t) p, rw (compare-append h t to) q)

-- A key with another head of that length is not met.
pub same_head :
    (h k from to t : List ℕ) → length h ≡ length k → InRange (h ++ from) (h ++ to) (k ++ t) → h ≡ k
same_head h k from to t e (above, below) = eq_of_compare h k (
    ground (
      arith,
      above,
      below,
      flip-bytes_compare h k,
      compare-append_equal_length h k from t e,
      compare-append_equal_length k h t to (sym e),
    ))

-- bytes.Compare(xs, ys) < 0
abbrev pub bytes_lt : List ℕ → List ℕ → Bool
bytes_lt xs ys = elim (bytes_compare xs ys) [ Ordering.lt ↦ true | _ ↦ false ]

lt-LeBytes :
    (xs ys zs : List ℕ)
    → bytes_compare xs ys ≡ Ordering.lt
    → LeBytes ys zs
    → bytes_compare xs zs ≡ Ordering.lt
unfolding bytes_compare
lt-LeBytes [] [] zs h k = cc
lt-LeBytes [] (y ∷ ys) [] h k = absurd (k refl)
lt-LeBytes [] (y ∷ ys) (z ∷ zs) h k = refl
lt-LeBytes (x ∷ xs) [] zs h k = cc
lt-LeBytes (x ∷ xs) (y ∷ ys) [] h k = absurd (k refl)
lt-LeBytes (x ∷ xs) (y ∷ ys) (z ∷ zs) h k = ground (arith, lt-LeBytes xs ys zs)

-- What is before xs is before all that are not before xs.
pub bytes_lt-LeBytes :
    (xs ys zs : List ℕ) → bytes_lt xs ys ≡ true → LeBytes ys zs → bytes_lt xs zs ≡ true
bytes_lt-LeBytes xs ys zs h k = ap is_lt (lt-LeBytes xs ys zs (only_lt (bytes_compare xs ys) h) k)
  where
    is_lt : Ordering → Bool
    is_lt o = elim o [ Ordering.lt ↦ true | _ ↦ false ]

    only_lt : (o : Ordering) → is_lt o ≡ true → o ≡ Ordering.lt
    only_lt Ordering.lt e = refl
    only_lt Ordering.eq e = cc
    only_lt Ordering.gt e = cc
