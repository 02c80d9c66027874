-- ===== src/Tests.antt =====
-- Runs of the definitions on small inputs, and the theorems at inputs that meet their hypotheses.
mod Lattice
mod Ring
mod Index
mod Facet
mod Mvcc
mod Wal
mod Pages
mod Allocator
