-- ===== src/Slices.antt =====
-- xslices/slices.go: `Unique` and `Partition`.
pub mod Defs
pub mod Unique
pub mod Partition
mod Tests
