-- ===== src/Spot.antt =====
-- The first version of the library: include/binapi and src/binapi.
pub mod Fnv1a
pub mod Enums
pub mod PairsList
