-- ===== src/Dpdk/Rts.antt =====
-- ring/dpdk/ring.go: the publication of a relaxed side, whose calls finish in any order.
pub mod Side
pub mod Tally
pub mod Order
pub mod Finish
pub mod Safety
mod Tests
