-- ===== src/Dpdk/Mpmc/Intervals.antt =====
-- The invariant on positions: the lanes' order, and the intervals that calls hold.
use go_data_structures.Base.{ℕ, ◌+◌, ◌≤◌, ◌<◌, ◌≡◌, ◌≢◌, ◌⊎◌, refl, List, []}
use go_data_structures.Dpdk.Mpmc.Admission.{Role, producer, consumer}
use go_data_structures.Dpdk.Mpmc.State.{
  Config, capacity, transfer, Mem, Request, Pc, idle, calling, at_head, loading, storing, deciding,
  reserved, copied, returned, Thread, lane, other, set_cache, set_tail, reserve,
}
use go_data_structures.Dpdk.Mpmc.System.{IsRequest}

module _ {T : Type 0} where
  -- The interval that a call holds: `size pc` positions from `first pc` on.
  abbrev pub first : Pc T → ℕ
  first (reserved q s k n) = s
  first (copied s k n out) = s
  first pc = 0

  abbrev pub size : Pc T → ℕ
  size (reserved q s k n) = k
  size (copied s k n out) = k
  size pc = 0

  -- What a call has seen of the shared positions.
  abbrev pub Sees : Role → Mem T → Pc T → Type 0
  Sees r m (calling q) = IsRequest r q
  Sees r m (at_head q h) = IsRequest r q × (h ≤ (lane r m).head)
  Sees r m (loading q h c) = IsRequest r q × (h ≤ (lane r m).head)
  Sees r m (storing q h p) = IsRequest r q × (h ≤ (lane r m).head) × (p ≤ (lane (other r) m).tail)
  Sees r m (deciding q h p) = IsRequest r q × (h ≤ (lane r m).head) × (p ≤ (lane (other r) m).tail)
  Sees r m (reserved q s k n) = IsRequest r q × (0 < k) × (k ≤ q.requested)
  Sees r m (copied s k n out) = 0 < k
  Sees r m pc = Unit

  -- The interval lies between the side's publication and its head.
  abbrev pub Lies : Role → Mem T → Pc T → Type 0
  Lies r m pc = 0 < size pc → ((lane r m).tail ≤ first pc) × (first pc + size pc ≤ (lane r m).head)

  -- No position is held by both.
  abbrev pub Apart : Pc T → Pc T → Type 0
  Apart p p' =
      0 < size p → 0 < size p' → (first p + size p ≤ first p') ⊎ (first p' + size p' ≤ first p)

  module _ (bound : ℕ) where
    -- How far a side's head may go.
    abbrev pub limit : Role → Mem T → ℕ
    limit producer m = m.consumers.tail + bound
    limit consumer m = m.producers.tail

    -- One side: publication behind the head, the head within the limit, and the cache behind the
    -- other side's publication.
    abbrev pub InOrder : Role → Mem T → Type 0
    InOrder r m =
        ((lane r m).tail ≤ (lane r m).head)
        × ((lane r m).head ≤ limit r m)
        × ((lane r m).cache ≤ (lane (other r) m).tail)

  pub record Inv (bound : ℕ) (m : Mem T) (threads : ℕ → Thread T) : Type 0 where
    pub producers : InOrder bound producer m
    pub consumers : InOrder bound consumer m
    pub sees : (i : ℕ) → Sees (threads i).role m (threads i).pc
    pub lies : (i : ℕ) → Lies (threads i).role m (threads i).pc
    pub apart :
        (i j : ℕ)
        → i ≢ j
        → (threads i).role ≡ (threads j).role
        → Apart (threads i).pc (threads j).pc

  -- A call that holds nothing, and has returned at most with nothing.
  abbrev pub Blank : Pc T → Type 0
  Blank (reserved q s k n) = ⊥
  Blank (copied s k n out) = ⊥
  Blank (returned s k n out) = (k ≡ 0) × (out ≡ [])
  Blank pc = Unit

  pub Blank-size : (pc : Pc T) → Blank pc → size pc ≡ 0
  Blank-size idle b = refl
  Blank-size (calling q) b = refl
  Blank-size (at_head q h) b = refl
  Blank-size (loading q h c) b = refl
  Blank-size (storing q h p) b = refl
  Blank-size (deciding q h p) b = refl
  Blank-size (reserved q s k n) b = absurd b
  Blank-size (copied s k n out) b = absurd b
  Blank-size (returned s k n out) b = refl

  -- What an action of a call does.
  pub data Move (zeroed : T) (cfg : Config) (r : Role) (m : Mem T)
      : Pc T → Mem T → Pc T → Type 0 where
    -- It looks at the shared state, or returns with nothing.
    looks : {pc pc' : Pc T} → Blank pc → Blank pc' → Sees r m pc' → Move zeroed cfg r m pc m pc'
    stores :
        {pc pc' : Pc T} (c : ℕ)
        → c ≤ (lane (other r) m).tail
        → Blank pc
        → Blank pc'
        → Sees r m pc'
        → Move zeroed cfg r m pc (set_cache r c m) pc'
    waits : {pc : Pc T} → Move zeroed cfg r m pc m pc
    grants :
        {q : Request T} {h p : ℕ} (k n : ℕ)
        → IsRequest r q
        → 0 < k
        → k ≤ q.requested
        → (lane r m).head + k ≤ limit (capacity cfg) r m
        → Move zeroed cfg r m (deciding q h p) (reserve r q k m) (reserved q (lane r m).head k n)
    copies :
        {q : Request T} {s k n : ℕ}
        → Move zeroed cfg r m
            (reserved q s k n)
            (transfer zeroed r cfg q s k m).1
            (copied s k n (transfer zeroed r cfg q s k m).0)
    publishes :
        {s k n : ℕ} {out : List T}
        → 0 < k
        → (lane r m).tail ≡ s
        → Move zeroed cfg r m (copied s k n out) (set_tail r (s + k) m) (returned s k n out)

-- A copy leaves the lanes.
pub transfer-lanes :
    {T : Type 0} (zeroed : T) (cfg : Config) (r : Role) (q : Request T) (s k : ℕ) (m : Mem T)
    → ((transfer zeroed r cfg q s k m).1.producers ≡ m.producers)
      × ((transfer zeroed r cfg q s k m).1.consumers ≡ m.consumers)
unfolding transfer
transfer-lanes zeroed cfg producer q s k m = (refl, refl)
transfer-lanes zeroed cfg consumer q s k m = (refl, refl)
