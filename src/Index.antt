-- ===== src/Index.antt =====
-- internal/index: the keys of the ordered store.
pub mod Errors
pub mod Packed
pub mod Cell
pub mod Segment
pub mod Tag
pub mod Facet
