-- ===== src/Dpdk/Mpmc/System.antt =====
-- Any number of goroutines on one queue, their atomic actions interleaved in any order.
use go_data_structures.Base.{ℕ, ◌+◌, ◌^◌, ◌≤◌, ◌<◌, [], length, replicate, update}
use go_data_structures.Dpdk.Mpmc.Admission.{Role, producer, consumer}
use go_data_structures.Dpdk.Mpmc.State.{
  Config, capacity, Lane, Mem, Request, Pc, idle, calling, deciding, returned, Thread, lane, other,
  advance,
}

pub record System (T : Type 0) : Type 0 where
  pub mem : Mem T
  pub threads : ℕ → Thread T

-- A goroutine that is in no call.
abbrev pub IsDone : {T : Type 0} → Pc T → Type 0
IsDone idle = Unit
IsDone (returned s k n out) = Unit
IsDone pc = ⊥

-- What the caller hands over: a producer has an item for each slot that it asks for.
abbrev pub IsRequest : {T : Type 0} → Role → Request T → Type 0
IsRequest producer q = q.requested ≤ length q.items
IsRequest consumer q = Unit

-- The documented limits of the protocol, at a compare-and-swap: the head was not loaded a full cycle
-- of positions ago, and the cached position lags by less than a cycle and a capacity.
abbrev pub IsFresh : {T : Type 0} → Config → Role → Mem T → Pc T → Type 0
IsFresh cfg r m (deciding q h p) =
    ((lane r m).head < h + 2 ^ 32) × ((lane (other r) m).tail + capacity cfg < p + 2 ^ 32)
IsFresh cfg r m pc = Unit

abbrev zero_lane : Lane
zero_lane = record { head = 0; tail = 0; cache = 0 }

-- Goroutine `i` starts a call.
unfoldable pub call : {T : Type 0} → ℕ → Role → Request T → System T → System T
call i r q s = record s { threads = update s.threads i (record { role = r; pc = calling q }) }

module _ {T : Type 0} (zeroed : T) where
  -- `NewMPMCQueue`, before any call.
  abbrev pub initial : Config → System T
  initial cfg = record {
    mem = record {
      producers = zero_lane;
      consumers = zero_lane;
      entries = replicate (capacity cfg) zeroed;
      log = [];
    };
    threads = λ i. record { role = producer; pc = idle };
  }

  -- `Reset`, of the words that the ordered mode uses.
  unfoldable pub reset : Mem T → Mem T
  reset m = record {
    producers = zero_lane;
    consumers = zero_lane;
    entries = replicate (length m.entries) zeroed;
    log = [];
  }

  -- The next action of goroutine `i`.
  unfoldable pub act : Config → ℕ → System T → System T
  act cfg i s =
      let t = s.threads i in
      let (m, pc) = advance zeroed cfg t.role t.pc s.mem in
      record { mem = m; threads = update s.threads i (record { role = t.role; pc = pc }) }

  pub data Reach (cfg : Config) : System T → Type 0 where
    start : Reach cfg (initial cfg)
    acts :
        {s : System T} (i : ℕ)
        → Reach cfg s
        → IsFresh cfg (s.threads i).role s.mem (s.threads i).pc
        → Reach cfg (act cfg i s)
    calls :
        {s : System T} (i : ℕ) (r : Role) (q : Request T)
        → Reach cfg s
        → IsDone (s.threads i).pc
        → IsRequest r q
        → Reach cfg (call i r q s)
    -- `Reset` has the queue to itself: all calls have returned, and their results are taken.
    resets :
        {s : System T}
        → Reach cfg s
        → ((i : ℕ) → IsDone (s.threads i).pc)
        → Reach cfg
            (record { mem = reset s.mem; threads = λ i. record { role = producer; pc = idle } })
