-- ===== src/Tests/Lattice.antt =====
-- Tests of internal/lattice.
use hexxladb.Base.{◌^◌, ◌<◌, ◌≡◌, ◌↔◌, refl, arith, some}
use hexxladb.Base.Int.{pos, negsuc, ◌+ℤ◌, ◌-ℤ◌, ◌≤ℤ◌}
use hexxladb.Lattice.Int64.{add64, sub64, neg64}
use hexxladb.Lattice.Coord.{Coord, to_cube, distance}
use hexxladb.Lattice.Coord.Metric.{hex_distance, distance_lem, distance_triangle}
use hexxladb.Lattice.PackedCoord.{PackedCoord}
use hexxladb.Lattice.Packed.{
  pack, unpack, zigzag64, in_pack_range_cube, zigzag_fits21, morton_pack63, morton_expand7,
}
use hexxladb.Lattice.Packed.RoundTrip.{unpack-pack, pack_domain, InBox}

-- (3, -2)
abbrev sample : Coord
sample = record { q = pos 3; r = negsuc 1 }

abbrev far : Coord
far = record { q = negsuc 4; r = pos 7 }

abbrev origin : Coord
origin = record { q = pos 0; r = pos 0 }

abbrev sample_key : PackedCoord
sample_key = record { lo = 94; hi = 0 }

pack-sample : pack sample ≡ some sample_key
unfolding pack in_pack_range_cube zigzag64 zigzag_fits21 morton_pack63 morton_expand7 to_cube sub64
    ◌-ℤ◌ neg64 add64 ◌+ℤ◌
pack-sample = refl

unpack-pack_example : unpack sample_key ≡ some sample
unpack-pack_example = unpack-pack sample pack-sample

pack_domain_example :
    ((p : PackedCoord) × (pack far ≡ some p) × (p.lo < 2 ^ 63) × (p.hi ≡ 0)) ↔ InBox far
pack_domain_example = pack_domain far

distance_lem_example : distance sample far ≡ pos (hex_distance sample far)
distance_lem_example = distance_lem sample far (omega arith) (omega arith)

distance_triangle_example : distance sample origin ≤ℤ distance sample far +ℤ distance far origin
distance_triangle_example =
    distance_triangle sample far origin (omega arith) (omega arith) (omega arith)
