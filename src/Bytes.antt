-- ===== src/Bytes.antt =====
-- Byte strings as lists of numbers below 256.
pub mod BigEndian
pub mod Order
pub mod Slices
