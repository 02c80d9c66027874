-- ===== src/Lattice/Coord/Metric.antt =====
-- The distance of coordinates that are far from the ends of int64.
use hexxladb.Base.{
  ℕ, ◌+◌, ◌-◌, ◌/◌, ◌^◌, ◌≤◌, ◌<◌, ◌≡◌, ◌↔◌, refl, sym, ◌∙◌, ap, arith, max, suc, ◌⊎◌, inl, inr,
}
use hexxladb.Base.Int.{
  ℤ, pos, negsuc, pos_part, neg_part, ◌≤ℤ◌, eq_of_parts, ◌+ℤ◌, ◌-ℤ◌, +ℤ_parts, -ℤ_parts,
}
use hexxladb.Lattice.Int64.{add64, sub64, neg64, neg64_parts, int64_laws, InInt64, wrap64_lem}
use hexxladb.Lattice.Coord.{Coord, abs64, half64, distance}

-- The coordinate lies in the box of half-width 2 ^ 59.
abbrev pub IsSmall : Coord → Type 0
IsSmall c =
    (pos_part c.q ≤ 2 ^ 59)
    × (neg_part c.q ≤ 2 ^ 59)
    × (pos_part c.r ≤ 2 ^ 59)
    × (neg_part c.r ≤ 2 ^ 59)

-- |z|
abbrev pub magnitude : ℤ → ℕ
magnitude z = pos_part z + neg_part z

-- Hex distance in exact arithmetic: the largest of the three coordinate differences.
unfoldable pub hex_distance : Coord → Coord → ℕ
hex_distance a b =
    max (max (magnitude (a.q -ℤ b.q)) (magnitude (a.r -ℤ b.r)))
      (magnitude (a.q +ℤ a.r -ℤ (b.q +ℤ b.r)))

abs64_lem : (x : ℤ) → InInt64 x → neg_part x < 2 ^ 63 → abs64 x ≡ pos (magnitude x)
unfolding abs64
abs64_lem (pos n) h k = ground arith
abs64_lem (negsuc n) h k =
    ground (arith, neg64_parts (negsuc n), eq_of_parts (neg64 (negsuc n)) (pos (suc n)))

-- Of three integers that are the sides of a hex triangle, the largest is half their sum.
half_sum :
    (x y z : ℤ)
    → pos_part z + neg_part x + neg_part y ≡ neg_part z + pos_part x + pos_part y
    → (magnitude x + magnitude y + magnitude z) / 2
      ≡ max (max (magnitude x) (magnitude y)) (magnitude z)
half_sum (pos x) (pos y) (pos z) h = omega arith
half_sum (pos x) (pos y) (negsuc z) h = omega arith
half_sum (pos x) (negsuc y) (pos z) h = omega arith
half_sum (pos x) (negsuc y) (negsuc z) h = omega arith
half_sum (negsuc x) (pos y) (pos z) h = omega arith
half_sum (negsuc x) (pos y) (negsuc z) h = omega arith
half_sum (negsuc x) (negsuc y) (pos z) h = omega arith
half_sum (negsuc x) (negsuc y) (negsuc z) h = omega arith

exact_sub : (a b : ℤ) → InInt64 (a -ℤ b) → sub64 a b ≡ a -ℤ b
unfolding sub64
exact_sub a b h = wrap64_lem (a -ℤ b) h

exact_add : (a b : ℤ) → InInt64 (a +ℤ b) → add64 a b ≡ a +ℤ b
unfolding add64
exact_add a b h = wrap64_lem (a +ℤ b) h

add64_pos : (a b : ℕ) → a + b < 2 ^ 63 → add64 (pos a) (pos b) ≡ pos (a + b)
add64_pos a b h = omega int64_laws

sum_magnitudes :
    (x y z : ℤ)
    → magnitude x ≤ 2 ^ 60
    → magnitude y ≤ 2 ^ 60
    → magnitude z ≤ 2 ^ 61
    → add64 (add64 (abs64 x) (abs64 y)) (abs64 z) ≡ pos (magnitude x + magnitude y + magnitude z)
sum_magnitudes x y z h k l =
    rw
      (
        abs64_lem x (omega arith) (omega arith),
        abs64_lem y (omega arith) (omega arith),
        abs64_lem z (omega arith) (omega arith),
        add64_pos (magnitude x) (magnitude y) (omega arith),
      )
      (add64_pos (magnitude x + magnitude y) (magnitude z) (omega arith))

pub one_sided : (z : ℤ) → (pos_part z ≡ 0) ⊎ (neg_part z ≡ 0)
one_sided (pos n) = inr refl
one_sided (negsuc n) = inl refl

-- For coordinates with |Q| and |R| at most 2 ^ 59, the int64 arithmetic of Distance gives the hex
-- distance of exact arithmetic, the largest of the three cube differences.
pub distance_lem : (a b : Coord) → IsSmall a → IsSmall b → distance a b ≡ pos (hex_distance a b)
unfolding distance hex_distance half64
distance_lem a b h k =
    let x = a.q -ℤ b.q in
    let y = a.r -ℤ b.r in
    let u = a.q +ℤ a.r in
    let v = b.q +ℤ b.r in
    let z = u -ℤ v in
    let pu = +ℤ_parts a.q a.r in
    let pv = +ℤ_parts b.q b.r in
    let px = -ℤ_parts a.q b.q in
    let py = -ℤ_parts a.r b.r in
    let pz = -ℤ_parts u v in
    rw
      (
        exact_sub a.q b.q (omega (arith, px)),
        exact_sub a.r b.r (omega (arith, py)),
        exact_add a.q a.r (omega (arith, pu)),
        exact_add b.q b.r (omega (arith, pv)),
        exact_sub u v (omega (arith, pu, pv, pz)),
        sum_magnitudes x y z (omega (arith, px, one_sided x)) (omega (arith, py, one_sided y))
            (omega (arith, pu, pv, pz, one_sided z)),
      )
      (ap pos (half_sum x y z (omega (arith, pu, pv, px, py, pz))))

-- Facts about one difference, for `omega`.
pub magnitude_lem :
    (a b : ℤ)
    → magnitude (a -ℤ b)
      ≡ (pos_part a + neg_part b - (neg_part a + pos_part b))
        + (neg_part a + pos_part b - (pos_part a + neg_part b))
magnitude_lem a b = omega (arith, -ℤ_parts a b, one_sided (a -ℤ b))

pub hex_distance_lem :
    (a b : Coord)
    → hex_distance a b
      ≡ max
          (max (magnitude (a.q -ℤ b.q)) (magnitude (a.r -ℤ b.r)))
          (magnitude (a.q +ℤ a.r -ℤ (b.q +ℤ b.r)))
unfolding hex_distance
hex_distance_lem a b = refl

triangle : (x y z : ℤ) → magnitude (x -ℤ z) ≤ magnitude (x -ℤ y) + magnitude (y -ℤ z)
triangle x y z = omega (arith, magnitude_lem x z, magnitude_lem x y, magnitude_lem y z)

-- For coordinates with |Q| and |R| at most 2 ^ 59 the distance is 0 exactly if they are equal.
pub distance-zero : (a b : Coord) → IsSmall a → IsSmall b → (distance a b ≡ pos 0) ↔ (a ≡ b)
unfolding hex_distance
distance-zero a b h k = (apart, together)
  where
    apart : distance a b ≡ pos 0 → a ≡ b
    apart e =
        let d = sym (distance_lem a b h k) ∙ e in
        let n : hex_distance a b ≡ 0 = omega (arith, ap magnitude d) in
        let x : a.q ≡ b.q = eq_of_parts _ _ (omega (arith, n, magnitude_lem a.q b.q)) in
        let y : a.r ≡ b.r = eq_of_parts _ _ (omega (arith, n, magnitude_lem a.r b.r)) in
        λ i. record { q = x i; r = y i }

    together : a ≡ b → distance a b ≡ pos 0
    together e = rw (← e) (
        distance_lem a a h h
        ∙ ap pos (
            omega (
              arith,
              magnitude_lem a.q a.q,
              magnitude_lem a.r a.r,
              magnitude_lem (a.q +ℤ a.r) (a.q +ℤ a.r),
            )))

-- For coordinates with |Q| and |R| at most 2 ^ 59 the distance is the same both ways.
pub distance_comm : (a b : Coord) → IsSmall a → IsSmall b → distance a b ≡ distance b a
unfolding hex_distance
distance_comm a b h k =
    rw (distance_lem a b h k, distance_lem b a k h)
      (ap pos (
        omega (
          arith,
          magnitude_lem a.q b.q,
          magnitude_lem b.q a.q,
          magnitude_lem a.r b.r,
          magnitude_lem b.r a.r,
          magnitude_lem (a.q +ℤ a.r) (b.q +ℤ b.r),
          magnitude_lem (b.q +ℤ b.r) (a.q +ℤ a.r),
        )))

-- For coordinates with |Q| and |R| at most 2 ^ 59 the way over a third one is not shorter.
pub distance_triangle :
    (a b c : Coord)
    → IsSmall a
    → IsSmall b
    → IsSmall c
    → distance a c ≤ℤ distance a b +ℤ distance b c
unfolding hex_distance
distance_triangle a b c h k l =
    rw (distance_lem a c h l, distance_lem a b h k, distance_lem b c k l)
      (omega (
        arith,
        +ℤ_parts (pos (hex_distance a b)) (pos (hex_distance b c)),
        triangle a.q b.q c.q,
        triangle a.r b.r c.r,
        triangle (a.q +ℤ a.r) (b.q +ℤ b.r) (c.q +ℤ c.r),
      ))
