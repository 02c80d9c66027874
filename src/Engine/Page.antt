-- ===== src/Engine/Page.antt =====
-- Pages as lists of bytes: internal/engine/const.go, and the writes into a page that is made zero.
use hexxladb.Base.{
  ℕ, zero, suc, ◌+◌, ◌-◌, ◌≤◌, ◌≡◌, sym, ap, ◌∙◌, List, [], ◌∷◌, ◌++◌, append_assoc, Bool, true,
  false, arith, length, length-replicate, take, drop, replicate, ltb, ◌==◌, if◌then◌else◌, Result,
  ok, err,
}
use hexxladb.Bytes.Slices.{codes, take-front}
use hexxladb.Engine.Errors.{EngineError, uint16_overflow}

-- validPageSizes
abbrev pub valid_page_sizes : List ℕ
valid_page_sizes = 4096 ∷ 8192 ∷ 16384 ∷ 65536 ∷ []

-- The loop of IsValidPageSize.
abbrev pub one_of : ℕ → List ℕ → Bool
one_of ps [] = false
one_of ps (v ∷ vs) = if ps == v then true else one_of ps vs

-- IsValidPageSize
unfoldable pub is_valid_page_size : ℕ → Bool
is_valid_page_size ps = one_of ps valid_page_sizes

-- btreeNodeMagic
abbrev pub btree_node_magic : List ℕ
btree_node_magic = codes "HXBT"

abbrev pub btree_version : ℕ
btree_version = 1

abbrev pub btree_kind_leaf : ℕ
btree_kind_leaf = 1

abbrev pub btree_kind_internal : ℕ
btree_kind_internal = 2

abbrev pub btree_header_size : ℕ
btree_header_size = 64

abbrev pub max_key_bytes : ℕ
max_key_bytes = 256

-- uint16FromInt; a length is not negative.
unfoldable pub uint16_from_int : ℕ → Result EngineError ℕ
uint16_from_int n = if ltb 65535 n then err uint16_overflow else ok n

-- make([]byte, n)
abbrev pub zeros : ℕ → List ℕ
zeros n = replicate n 0

-- A page after the bytes bs are written from off on.
unfoldable pub put : List ℕ → ℕ → List ℕ → List ℕ
put page off bs = take off page ++ (bs ++ drop (off + length bs) page)

pub length-zeros : (n : ℕ) → length (zeros n) ≡ n
length-zeros n = length-replicate n 0

drop-zeros : (k n : ℕ) → drop k (zeros n) ≡ zeros (n - k)
drop-zeros zero n = ap (λ m. zeros m) (omega arith)
drop-zeros (suc k) zero = let none_left : 0 ≡ 0 - suc k = omega arith in ap zeros none_left
drop-zeros (suc k) (suc n) = drop-zeros k n ∙ ap (λ m. zeros m) (omega arith)

drop-beyond : (k : ℕ) (xs ys : List ℕ) → drop (length xs + k) (xs ++ ys) ≡ drop k ys
drop-beyond k [] ys = ap (λ n. drop n ys) (omega arith)
drop-beyond k (x ∷ xs) ys =
    let next : suc (length xs) + k ≡ suc (length xs + k) = omega arith in
    rw next (drop-beyond k xs ys)

-- A write behind the part that is written so far.
pub put_next :
    (front bs : List ℕ) (n off : ℕ)
    → length front ≡ off
    → put (front ++ zeros n) off bs ≡ (front ++ bs) ++ zeros (n - length bs)
unfolding put
put_next front bs n off h =
    let head : take off (front ++ zeros n) ≡ front = take-front off front (zeros n) h in
    let tail : drop (off + length bs) (front ++ zeros n) ≡ zeros (n - length bs) =
      ap (λ k. drop (k + length bs) (front ++ zeros n)) (sym h)
      ∙ drop-beyond (length bs) front (zeros n)
      ∙ drop-zeros (length bs) n in
    rw (head, tail) (sym (append_assoc front bs (zeros (n - length bs))))

-- Bytes that are left zero.
pub skip_zeros : (k n : ℕ) → k ≤ n → zeros n ≡ zeros k ++ zeros (n - k)
skip_zeros zero n h = ap (λ m. zeros m) (omega arith)
skip_zeros (suc k) zero h = absurd (omega arith)
skip_zeros (suc k) (suc n) h =
    ap (λ l. 0 ∷ l) (skip_zeros k n (omega arith) ∙ ap (λ m. zeros k ++ zeros m) (omega arith))

pub valid_page_bounds : (n : ℕ) → is_valid_page_size n ≡ true → (4096 ≤ n) × (n ≤ 65536)
unfolding is_valid_page_size
valid_page_bounds n h = ground arith
