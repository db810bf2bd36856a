-- ===== src/Set.antt =====
-- set/set.go: a set over a map.
pub mod Maps
pub mod Defs
pub mod Laws
pub mod Membership
pub mod Sizes
pub mod Comparisons
pub mod Edits
mod Tests
