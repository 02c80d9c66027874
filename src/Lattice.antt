-- ===== src/Lattice.antt =====
-- internal/lattice: hex coordinates, rings and packed coordinates.
pub mod Int64
pub mod Coord
pub mod PackedCoord
pub mod Packed
pub mod Ring
