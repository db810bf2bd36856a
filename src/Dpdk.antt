-- ===== src/Dpdk.antt =====
-- ring/dpdk: the bounded FIFO queues modelled on DPDK's `rte_ring`.
pub mod Window
pub mod Copies
pub mod Capacity
pub mod Errors
pub mod Shared
pub mod Spsc
pub mod Options
pub mod Checks
pub mod Words
pub mod Rts
pub mod Mpmc
