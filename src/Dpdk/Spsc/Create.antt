-- ===== src/Dpdk/Spsc/Create.antt =====
-- ring/dpdk/spsc.go: `NewSPSCQueue`.
use go_data_structures.Base.{ℕ, ◌%◌, ◌^◌, not, List, replicate, sub_int}
use go_data_structures.Dpdk.Options.{Config, RingOption, single, Result, ok, failed, resolve_config}
use go_data_structures.Dpdk.Spsc.Defs.{Side, Queue}
use go_data_structures.Base.{Bool, true}

-- A zeroed side.
abbrev pub new_side : ℕ → Bool → Side
new_side max_batch exact_batch_counts = record {
  cursor = 0;
  cached = 0;
  published = 0;
  max_batch = max_batch % 2 ^ 32;
  exact = exact_batch_counts;
}

module _ {T : Type 0} (zeroed : T) where
  unfoldable pub configured : ℕ → Config → Queue T
  configured count cfg = record {
    entries = replicate count zeroed;
    mask = sub_int count 1 % 2 ^ 32;
    clear_on_dequeue = not cfg.keep_dequeued;
    producer = new_side cfg.max_enqueue_batch cfg.exact_batch_counts;
    consumer = new_side cfg.max_dequeue_batch cfg.exact_batch_counts;
  }

  unfoldable pub build : ℕ → Result Config → Result (Queue T)
  unfolding configured
  build count (ok cfg) = ok (configured count cfg)
  build count (failed e) = failed e

  -- `NewSPSCQueue`
  unfoldable pub new_queue : ℕ → List RingOption → Result (Queue T)
  unfolding build
  new_queue count options = build count (resolve_config count single single true options)
