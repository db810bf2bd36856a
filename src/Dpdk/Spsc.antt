-- ===== src/Dpdk/Spsc.antt =====
-- ring/dpdk/spsc.go: the queue with one producer and one consumer.
pub mod Defs
pub mod Inv
pub mod Put
pub mod Take
pub mod Enqueue
pub mod EnqueueOne
pub mod Dequeue
pub mod DequeueOne
pub mod Create
pub mod Created
pub mod Spec
pub mod Singles
pub mod Bulk
pub mod Step
pub mod Answers
pub mod BulkAnswers
pub mod Calls
pub mod Observers
mod Tests
