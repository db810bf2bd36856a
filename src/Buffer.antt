-- ===== src/Buffer.antt =====
-- buffer/: the fixed-capacity buffer, its byte specialization and its pool.
pub mod Defs
pub mod Inv
pub mod Spec
pub mod Remove
pub mod Clear
pub mod Compact
pub mod CompactZero
pub mod Room
pub mod Append
pub mod Grow
pub mod Growth
pub mod Removals
pub mod Calls
pub mod Bytes
pub mod Pool
pub mod Views
mod Tests
