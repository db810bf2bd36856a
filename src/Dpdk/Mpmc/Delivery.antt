-- ===== src/Dpdk/Mpmc/Delivery.antt =====
-- What the calls of the queue deliver: the order of the log.
use go_data_structures.Base.{ℕ, ◌+◌, ◌≤◌, ◌<◌, ◌≡◌, List, length, slice}
use go_data_structures.Dpdk.Capacity.{IsCapacity}
use go_data_structures.Dpdk.Mpmc.Admission.{consumer}
use go_data_structures.Dpdk.Mpmc.State.{Config, returned}
use go_data_structures.Dpdk.Mpmc.System.{System, Reach}
use go_data_structures.Dpdk.Mpmc.Fifo.{Reach-Data}

module _ {T : Type 0} (zeroed : T) (cfg : Config) (c : IsCapacity (cfg.mask + 1)) where
  -- In every reachable state, however the calls were interleaved, a consumer's call that has
  -- returned has the items that were enqueued at its positions, in their order.
  pub returned_items :
      {s : System T}
      → Reach zeroed cfg s
      → (i start count remaining : ℕ) (out : List T)
      → s.threads i ≡ record { role = consumer; pc = returned start count remaining out }
      → (0 < count → start + count ≤ length s.mem.log) × (out ≡ slice s.mem.log start count)
  returned_items {s} k i start count remaining out e = rw e at ((Reach-Data zeroed cfg c k).knows i)
