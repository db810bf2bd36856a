-- ===== src/Dpdk/Mpmc/Requests.antt =====
-- What the public methods ask of a reservation, and what the observers report.
use go_data_structures.Base.{
  List, [], ◌∷◌, ℕ, ◌^◌, leb, ◌+◌, ◌-◌, ◌≤◌, ◌<◌, ◌≡◌, refl, arith, ◌||◌, Bool, true, false, not,
  Bool-cases, inl, inr, length, min, ltb, ◌==◌, Option, none, some, sub_u32,
}
use go_data_structures.Dpdk.Capacity.{IsCapacity, capacity_bounds}
use go_data_structures.Dpdk.Mpmc.State.{Config, capacity, Request, word}
use go_data_structures.Dpdk.Mpmc.System.{System, IsRequest, Reach}
use go_data_structures.Dpdk.Mpmc.Actions.{capacity_lem}
use go_data_structures.Dpdk.Mpmc.Exclusive.{lanes_in_order}
use go_data_structures.Dpdk.Mpmc.Methods.{
  Method, enqueue, dequeue, enqueue_bulk, enqueue_burst, dequeue_bulk, dequeue_burst, role, request,
  count, free, is_full, is_empty,
}

module _ {T : Type 0} where
  -- A bulk call of more slots than its side's batch limit.
  abbrev pub WrongLength : Config → Method T → Type 0
  WrongLength cfg (enqueue_bulk xs) = cfg.max_enqueue_batch < length xs
  WrongLength cfg (dequeue_bulk n) = cfg.max_dequeue_batch < n
  WrongLength cfg m = ⊥

  -- The slots that a call is for: one, the batch, or what the limit leaves of it.
  abbrev pub wanted : Config → Method T → ℕ
  wanted cfg (enqueue x) = 1
  wanted cfg dequeue = 1
  wanted cfg (enqueue_bulk xs) = length xs
  wanted cfg (enqueue_burst xs) = min (length xs) cfg.max_enqueue_batch
  wanted cfg (dequeue_bulk n) = n
  wanted cfg (dequeue_burst n) = min n cfg.max_dequeue_batch

  -- The items that a producer hands over.
  abbrev pub offered : Method T → List T
  offered (enqueue x) = x ∷ []
  offered (enqueue_bulk xs) = xs
  offered (enqueue_burst xs) = xs
  offered m = []

  abbrev pub may_be_partial : Method T → Bool
  may_be_partial (enqueue_burst xs) = true
  may_be_partial (dequeue_burst n) = true
  may_be_partial m = false

  -- A call of a wrong length is refused, any other one reserves what it is for, which the protocol
  -- allows.
  abbrev pub IsAdmissible : (cfg : Config) (m : Method T) → Option (Request T) → Type 0
  IsAdmissible cfg m none = WrongLength cfg m
  IsAdmissible cfg m (some q) =
      ¬ (WrongLength cfg m)
      × IsRequest (role m) q
      × (q.requested ≡ wanted cfg m)
      × (q.requested ≤ capacity cfg)
      × (q.fixed ≡ not (may_be_partial m))
      × (q.items ≡ offered m)

module _ {T : Type 0} (cfg : Config) where
  -- With batch limits of at most a capacity, a method reports a wrong length exactly when a bulk call
  -- is for more than its limit, and else it asks for what it is for, at most a capacity of slots, and
  -- a producer has an item for each, of those that its caller gave.
  pub request-IsAdmissible :
      (m : Method T)
      → 0 < capacity cfg
      → cfg.max_enqueue_batch ≤ capacity cfg
      → cfg.max_dequeue_batch ≤ capacity cfg
      → IsAdmissible cfg m (request cfg m)
  unfolding request
  request-IsAdmissible (enqueue x) a b c = (λ w. w, omega arith, refl, omega arith, refl, refl)
  request-IsAdmissible dequeue a b c = (λ w. w, tt, refl, omega arith, refl, refl)
  request-IsAdmissible (enqueue_bulk xs) a b c =
      elim (Bool-cases (ltb (capacity cfg) (length xs) || ltb cfg.max_enqueue_batch (length xs))) [
        | inl e ↦ rw e (ground arith)
        | inr e ↦ rw e (λ w. ground arith, omega arith, refl, ground arith, refl, refl)
      ]
  request-IsAdmissible (enqueue_burst xs) a b c =
      (λ w. w, omega arith, refl, omega arith, refl, refl)
  request-IsAdmissible (dequeue_bulk n) a b c =
      elim (Bool-cases (ltb (capacity cfg) n || ltb cfg.max_dequeue_batch n)) [
        | inl e ↦ rw e (ground arith)
        | inr e ↦ rw e (λ w. ground arith, tt, refl, ground arith, refl, refl)
      ]
  request-IsAdmissible (dequeue_burst n) a b c = (λ w. w, tt, refl, omega arith, refl, refl)

  -- When the consumers' word was loaded earlier than the producers', from a position less than 2^32
  -- behind it, `Count` is the number of positions between the two, but at most the capacity, `Free`
  -- is what that leaves of the capacity, `Full` says whether they are a capacity or more apart, and
  -- `Empty` whether they are equal.
  pub racing_observers_lem :
      (zeroed : T) {s : System T} (loaded : ℕ)
      → IsCapacity (cfg.mask + 1)
      → Reach zeroed cfg s
      → loaded ≤ s.mem.consumers.tail
      → s.mem.producers.tail < loaded + 2 ^ 32
      → (count cfg (word loaded) (word s.mem.producers.tail)
          ≡ min (s.mem.producers.tail - loaded) (capacity cfg))
        × (free cfg (word loaded) (word s.mem.producers.tail)
            ≡ capacity cfg - (s.mem.producers.tail - loaded))
        × (is_full cfg (word loaded) (word s.mem.producers.tail)
            ≡ leb (loaded + capacity cfg) s.mem.producers.tail)
        × (is_empty cfg (word loaded) (word s.mem.producers.tail)
            ≡ (s.mem.producers.tail == loaded))
  unfolding count free is_full is_empty
  racing_observers_lem zeroed {s} loaded c k h l =
      let o = lanes_in_order zeroed cfg c k in
      let m = s.mem in
      let e = capacity_lem cfg c in
      let b = capacity_bounds c in
      let counted : min (sub_u32 (word m.producers.tail) (word loaded)) (capacity cfg)
          ≡ min (m.producers.tail - loaded) (capacity cfg) =
        omega (arith, o, e, b, h, l) in
      rw counted (refl, omega arith, ground (arith, o, e, b, h, l), ground (arith, o, e, b, h, l))
