-- ===== src/Lattice/PackedCoord.antt =====
-- internal/lattice/packed.go: the type PackedCoord and its order. `lo` is word [0], `hi` word [1].
use hexxladb.Base.{ℕ, ◌^◌, ◌<◌, ◌≡◌, ltb, if◌then◌else◌, Bool, true, false, arith}
use hexxladb.Bytes.Order.{then_by}
use Prim.Native.Nat.{compare, Ordering}

pub record PackedCoord : Type 0 where
  pub lo : ℕ
  pub hi : ℕ

-- Both words are uint64.
pub record IsWords (p : PackedCoord) : Type 0 where
  pub lo_bound : p.lo < 2 ^ 64
  pub hi_bound : p.hi < 2 ^ 64

-- PackedCoord.Compare: `lt` for -1, `eq` for 0, `gt` for +1.
unfoldable pub compare_packed : PackedCoord → PackedCoord → Ordering
compare_packed p q =
    if ltb p.hi q.hi
    then Ordering.lt
    else if ltb q.hi p.hi
    then Ordering.gt
    else if ltb p.lo q.lo
    then Ordering.lt
    else if ltb q.lo p.lo
    then Ordering.gt
    else Ordering.eq

-- PackedCoord.Less
abbrev pub less_packed : PackedCoord → PackedCoord → Bool
less_packed p q = elim (compare_packed p q) [ Ordering.lt ↦ true | _ ↦ false ]

-- The words are compared high word first.
pub compare_packed_lem :
    (p q : PackedCoord) → compare_packed p q ≡ then_by (compare p.hi q.hi) (compare p.lo q.lo)
unfolding compare_packed
compare_packed_lem p q = ground arith

pub eq_of_compare_packed : (p q : PackedCoord) → compare_packed p q ≡ Ordering.eq → p ≡ q
unfolding compare_packed
eq_of_compare_packed p q h = ground arith
