-- ===== src/Dpdk/Mpmc.antt =====
-- ring/dpdk/mpmc.go: the queue with concurrent producers and consumers, with ordered publication.
pub mod Admission
pub mod State
pub mod System
pub mod Intervals
pub mod Moves
pub mod Actions
pub mod Safety
pub mod Slots
pub mod Contents
pub mod Writes
pub mod Learns
pub mod Fifo
pub mod Exclusive
pub mod Delivery
pub mod Linearization
pub mod Progress
pub mod Methods
pub mod Requests
pub mod Create
pub mod Room
pub mod Alone
pub mod Solo
pub mod Transfers
pub mod Answers
mod Tests
mod CreateTests
