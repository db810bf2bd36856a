-- ===== src/Workq/Wait.antt =====
-- workq/waitside.go: the callers that wait on one side of a work queue.
pub mod Word
pub mod Side
pub mod Callers
pub mod Results
pub mod Counted
pub mod Transitions
pub mod Safety
mod Tests
