-- ===== src/Dpdk/Errors.antt =====
-- ring/errors.go and ring/dpdk/errors.go: the sentinel errors; a wrapped one is the sentinel, since
-- `errors.Is` is how callers read it.
pub data Error : Type 0 where
  full empty invalid_count exceeds_capacity invalid_max_batch exceeds_max_batch : Error
  invalid_spins invalid_distance distance_requires_relaxed unsupported_option : Error
