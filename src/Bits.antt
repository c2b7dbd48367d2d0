-- ===== src/Bits.antt =====
-- The operators `&`, `|`, `^` of C on unsigned values, at every width.
pub mod Step
pub mod Lanes
pub mod Table
