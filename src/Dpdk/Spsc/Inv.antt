-- ===== src/Dpdk/Spsc/Inv.antt =====
-- The invariant of an SPSC queue between calls: the positions' distances, with caches that may lag.
use go_data_structures.Base.{ℕ, ◌+◌, ◌^◌, ◌≤◌, ◌<◌, ◌≡◌, List, arith, length, sub_u32}
use go_data_structures.Dpdk.Capacity.{IsCapacity, capacity_bounds}
use go_data_structures.Dpdk.Window.{window, length-window}
use go_data_structures.Dpdk.Spsc.Spec.{Limits}
use go_data_structures.Dpdk.Spsc.Defs.{Side, Queue, capacity, filled_slots}

abbrev pub IsPosition : Side → Type 0
IsPosition s = (s.cursor < 2 ^ 32) × (s.cached < 2 ^ 32) × (s.published ≡ s.cursor)

module _ {T : Type 0} where
  -- The published items that are not released yet.
  abbrev pub used : Queue T → ℕ
  used q = sub_u32 q.producer.cursor q.consumer.cursor

  -- The same as the producer's cache has it: no less.
  abbrev pub seen_used : Queue T → ℕ
  seen_used q = sub_u32 q.producer.cursor q.producer.cached

  pub record IsValid (q : Queue T) : Type 0 where
    pub shape : IsCapacity (q.mask + 1)
    pub size : length q.entries ≡ q.mask + 1
    pub producer_positions : IsPosition q.producer
    pub consumer_positions : IsPosition q.consumer
    -- The producer's cache lags behind the consumer, by no more than leaves it within one round.
    pub producer_cache : (used q ≤ seen_used q) × (seen_used q ≤ q.mask + 1)
    -- The consumer's cache lags behind the producer, and is not behind the consumer.
    pub consumer_cache : filled_slots q ≤ used q

  -- What no call changes.
  abbrev pub limits : Queue T → Limits
  limits q = record {
    slots = q.mask + 1;
    enqueue_limit = q.producer.max_batch;
    dequeue_limit = q.consumer.max_batch;
  }

  -- The capacity is the mask and one, without a wrap.
  pub capacity_lem : {q : Queue T} → IsValid q → capacity q ≡ q.mask + 1
  capacity_lem v = omega (arith, capacity_bounds v.shape)

  pub used-le : {q : Queue T} → IsValid q → used q ≤ q.mask + 1
  used-le v = omega arith

-- The abstract view: the items between the two cursors, oldest first.
unfoldable pub contents : {T : Type 0} → T → Queue T → List T
contents zeroed q = window zeroed q.entries (q.mask + 1) q.consumer.cursor (used q)

pub length-contents : {T : Type 0} (zeroed : T) (q : Queue T) → length (contents zeroed q) ≡ used q
unfolding contents
length-contents zeroed q = length-window zeroed q.entries (q.mask + 1) q.consumer.cursor (used q)
