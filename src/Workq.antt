-- ===== src/Workq.antt =====
-- workq: the work queue in memory.
pub mod Wait
