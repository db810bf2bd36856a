-- ===== src/Dpdk/Spsc/Defs/State.antt =====
-- ring/dpdk/spsc.go: the queue, its observers and `Reset`. Positions are `uint32`s that wrap; each
-- side keeps a private cursor and a cached copy of the other side's published one.
use go_data_structures.Base.{
  ℕ, ◌-◌, Bool, ◌||◌, List, length, blit, replicate, add_u32, sub_u32, ltb, ◌==◌, min,
}

-- `spscProducer` and `spscConsumer`: what is particular to a side. `cached` is `cachedConsumer` of
-- the producer and `cachedProducer` of the consumer.
pub record Side : Type 0 where
  pub cursor : ℕ
  pub cached : ℕ
  pub published : ℕ
  pub max_batch : ℕ
  pub exact : Bool

-- `SPSCQueue`. Both sides hold the same array and mask, set by the constructor and never changed.
pub record Queue (T : Type 0) : Type 0 where
  pub entries : List T
  pub mask : ℕ
  pub clear_on_dequeue : Bool
  pub producer : Side
  pub consumer : Side

-- `cursor += n; published.Store(cursor)`
abbrev pub advance : ℕ → Side → Side
advance n s = record s { cursor = add_u32 s.cursor n; published = add_u32 s.cursor n }

module _ {T : Type 0} where
  -- `Capacity`
  abbrev pub capacity : Queue T → ℕ
  capacity q = add_u32 q.mask 1

  -- `Count`
  unfoldable pub count : Queue T → ℕ
  count q = min (sub_u32 q.producer.published q.consumer.published) (capacity q)

  -- `Free`
  unfoldable pub free : Queue T → ℕ
  unfolding count
  free q = capacity q - count q

  -- `Full`
  unfoldable pub is_full : Queue T → Bool
  unfolding count
  is_full q = count q == capacity q

  -- `Empty`
  unfoldable pub is_empty : Queue T → Bool
  unfolding count
  is_empty q = count q == 0

  -- `capacity + cachedConsumer - cursor`
  abbrev pub free_slots : Queue T → ℕ
  free_slots q = sub_u32 (add_u32 (capacity q) q.producer.cached) q.producer.cursor

  -- `cachedProducer - cursor`
  abbrev pub filled_slots : Queue T → ℕ
  filled_slots q = sub_u32 q.consumer.cached q.consumer.cursor

  abbrev pub load_consumer : Queue T → Queue T
  load_consumer q = record q { producer = record q.producer { cached = q.consumer.published } }

  abbrev pub load_producer : Queue T → Queue T
  load_producer q = record q { consumer = record q.consumer { cached = q.producer.published } }

  -- `n == 0 || n > capacity`
  abbrev pub is_short : ℕ → Queue T → Bool
  is_short n q = n == 0 || ltb (capacity q) n

module _ {T : Type 0} (zeroed : T) where
  -- `Reset`
  unfoldable pub reset : Queue T → Queue T
  reset q = record q {
    entries = blit q.entries 0 (replicate (length q.entries) zeroed);
    producer = record q.producer { cursor = 0; cached = 0; published = 0 };
    consumer = record q.consumer { cursor = 0; cached = 0; published = 0 };
  }
