-- ===== src/Lattice/Ring/Keys.antt =====
-- internal/lattice/walk.go: WalkRingsPacked, which keeps the keys alone.
use hexxladb.Base.{
  ℕ, zero, suc, ◌+◌, ◌≡◌, refl, sym, ap, ◌∙◌, List, [], ◌∷◌, ◌++◌, Option, none, some, Bool-cases,
  inl, inr, true, ◌&&◌, arith, if◌then◌else◌,
}
use hexxladb.Base.Int.{ℤ, pos, negsuc}
use hexxladb.Lattice.Coord.{Coord}
use hexxladb.Lattice.PackedCoord.{PackedCoord}
use hexxladb.Lattice.Packed.{pack}
use hexxladb.Lattice.Ring.{ring_into}
use hexxladb.Lattice.Ring.Packed.{
  CoordPacked, can_make, ring_total, buffer_total, add_packed, pack_cells, pack_rings,
  walk_rings_coord_packed,
}

-- A key, if the cell has one.
abbrev add_key : List PackedCoord → Option PackedCoord → List PackedCoord
add_key out none = out
add_key out (some p) = out ++ p ∷ []

-- The inner loop of WalkRingsPacked over the cells of a ring.
pack_keys : List PackedCoord → List Coord → List PackedCoord
pack_keys out [] = out
pack_keys out (c ∷ cs) = pack_keys (add_key out (pack c)) cs

-- Its outer loop over the rings k, k + 1 and so on.
key_rings : ℕ → ℕ → Coord → List PackedCoord → List PackedCoord
unfolding pack_keys
key_rings zero k center out = out
key_rings (suc rounds) k center out =
    key_rings rounds (k + 1) center (pack_keys out (ring_into [] center (pos k)))

-- WalkRingsPacked: `none` where make panics. A key has 16 bytes, and a Coord too.
unfoldable pub walk_rings_packed : ℕ → Coord → ℤ → Option (List PackedCoord)
unfolding key_rings
walk_rings_packed max_alloc center (negsuc n) = some []
walk_rings_packed max_alloc center (pos max_r) =
    if can_make max_alloc 16 (ring_total max_r) && can_make max_alloc 16 (buffer_total max_r)
    then some (key_rings (max_r + 1) 0 center [])
    else none

-- The keys of the pairs.
abbrev pub keys : List CoordPacked → List PackedCoord
keys [] = []
keys (x ∷ xs) = x.packed ∷ keys xs

keys-append : (xs ys : List CoordPacked) → keys (xs ++ ys) ≡ keys xs ++ keys ys
keys-append [] ys = refl
keys-append (x ∷ xs) ys = ap (λ ps. x.packed ∷ ps) (keys-append xs ys)

keys-add_packed :
    (out : List CoordPacked) (c : Coord) (o : Option PackedCoord)
    → keys (add_packed out c o) ≡ add_key (keys out) o
keys-add_packed out c none = refl
keys-add_packed out c (some p) = keys-append out (record { coord = c; packed = p } ∷ [])

keys-pack_cells :
    (out : List CoordPacked) (cs : List Coord) → keys (pack_cells out cs) ≡ pack_keys (keys out) cs
unfolding pack_cells pack_keys
keys-pack_cells out [] = refl
keys-pack_cells out (c ∷ cs) =
    keys-pack_cells (add_packed out c (pack c)) cs
    ∙ ap (λ o. pack_keys o cs) (keys-add_packed out c (pack c))

keys-pack_rings :
    (rounds k : ℕ) (center : Coord) (out : List CoordPacked)
    → keys (pack_rings rounds k center out) ≡ key_rings rounds k center (keys out)
unfolding pack_rings key_rings
keys-pack_rings zero k center out = refl
keys-pack_rings (suc rounds) k center out =
    keys-pack_rings rounds (k + 1) center (pack_cells out (ring_into [] center (pos k)))
    ∙ ap (key_rings rounds (k + 1) center) (keys-pack_cells out (ring_into [] center (pos k)))

some_path : {A : Type 0} {a b : A} → ◌≡◌ {A = Option A} (some a) (some b) → a ≡ b
some_path e = cc

none_ne_some : {A : Type 0} {a : A} → ◌≡◌ {A = Option A} none (some a) → ⊥
none_ne_some e = cc

-- Where WalkRingsCoordPacked returns pairs, WalkRingsPacked returns their keys.
pub walk_rings_packed-keys :
    (max_alloc : ℕ) (center : Coord) (max_r : ℤ) (out : List CoordPacked)
    → walk_rings_coord_packed max_alloc center max_r ≡ some out
    → walk_rings_packed max_alloc center max_r ≡ some (keys out)
unfolding walk_rings_packed walk_rings_coord_packed
walk_rings_packed-keys max_alloc center (negsuc n) out h = ap (λ o. some (keys o)) (some_path h)
walk_rings_packed-keys max_alloc center (pos max_r) out h =
    let pairs = can_make max_alloc 32 (ring_total max_r) in
    let buffer = can_make max_alloc 16 (buffer_total max_r) in
    elim (Bool-cases (pairs && buffer)) [
      | inr panics ↦ absurd (none_ne_some (rw panics at h))
      | inl made ↦
          let smaller : (can_make max_alloc 16 (ring_total max_r)
                && can_make max_alloc 16 (buffer_total max_r))
              ≡ true =
            ground (arith, made) in
          rw smaller (
            ap some (sym (keys-pack_rings (max_r + 1) 0 center []))
            ∙ ap (λ o. some (keys o)) (some_path (rw made at h)))
    ]
