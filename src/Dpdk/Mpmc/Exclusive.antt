-- ===== src/Dpdk/Mpmc/Exclusive.antt =====
-- The positions of a reachable state, and the slots that its calls hold.
use go_data_structures.Base.{ℕ, ◌+◌, ◌%◌, ◌≤◌, ◌<◌, ◌≢◌, inl, inr, sym, arith}
use go_data_structures.Dpdk.Capacity.{IsCapacity}
use go_data_structures.Dpdk.Mpmc.Admission.{Role, producer, consumer}
use go_data_structures.Dpdk.Mpmc.State.{Config, capacity, Mem, Pc, Thread}
use go_data_structures.Dpdk.Mpmc.System.{System, Reach}
use go_data_structures.Dpdk.Mpmc.Intervals.{first, size, Lies, Inv}
use go_data_structures.Dpdk.Mpmc.Safety.{Reach-Inv}
use go_data_structures.Dpdk.Mpmc.Slots.{slots_differ}
use go_data_structures.Dpdk.Mpmc.Fifo.{Inv-Apart}

-- A call holds a position from its compare-and-swap on until it publishes.
abbrev pub Holds : {T : Type 0} → Pc T → ℕ → Type 0
Holds pc x = (first pc ≤ x) × (x < first pc + size pc)

module _ {T : Type 0} where
  -- Held positions lie within one capacity.
  pub Holds-bounds :
      {bound : ℕ} {m : Mem T} {threads : ℕ → Thread T} (v : Inv bound m threads) (i x : ℕ)
      → Holds (threads i).pc x
      → (m.consumers.tail ≤ x) × (x < m.producers.head)
  Holds-bounds {bound} {m} {threads} v i x h = side (threads i).role (v.lies i)
    where
      side : (r : Role) → Lies r m (threads i).pc → (m.consumers.tail ≤ x) × (x < m.producers.head)
      side producer l =
          (omega (arith, l (omega arith), v.consumers), omega (arith, l (omega arith), v.consumers))
      side consumer l = (
        omega (arith, l (omega arith), v.producers, v.consumers),
        omega (arith, l (omega arith), v.producers, v.consumers),
      )

  module _ (zeroed : T) (cfg : Config) (c : IsCapacity (cfg.mask + 1)) where
    -- In every reachable state the consumers' publication, their head, the producers' publication
    -- and their head are in this order, and the last is at most a capacity ahead of the first.
    pub lanes_in_order :
        {s : System T}
        → Reach zeroed cfg s
        → (s.mem.consumers.tail ≤ s.mem.consumers.head)
          × (s.mem.consumers.head ≤ s.mem.producers.tail)
          × (s.mem.producers.tail ≤ s.mem.producers.head)
          × (s.mem.producers.head ≤ s.mem.consumers.tail + capacity cfg)
    lanes_in_order k =
        let v = Reach-Inv zeroed cfg c k in
        (v.consumers.0, v.consumers.1, v.producers.0, v.producers.1)

    -- In every reachable state two different calls, on the same side or not, never hold the same
    -- slot of the array.
    pub held_slots_differ :
        {s : System T}
        → Reach zeroed cfg s
        → (i j : ℕ) → i ≢ j
        → (x y : ℕ) → Holds (s.threads i).pc x
        → Holds (s.threads j).pc y
        → x % capacity cfg ≢ y % capacity cfg
    held_slots_differ {s} k i j n x y h l =
        let v = Reach-Inv zeroed cfg c k in
        let b = Holds-bounds v i x h in
        let d = Holds-bounds v j y l in
        elim (Inv-Apart v i j n (omega arith) (omega arith)) [
          | inl g ↦ slots_differ (capacity cfg) x y (omega arith) (omega (arith, v.producers, b, d))
          | inr g ↦ λ e.
              slots_differ (capacity cfg) y x (omega arith) (omega (arith, v.producers, b, d))
                (sym e)
        ]
