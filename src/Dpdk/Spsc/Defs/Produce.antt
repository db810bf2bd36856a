-- ===== src/Dpdk/Spsc/Defs/Produce.antt =====
-- ring/dpdk/spsc.go: the methods of the producer.
use Prim.Native.Nat.{bit_and}
use go_data_structures.Base.{
  ℕ, ◌-◌, Bool, true, false, ◌&&◌, ◌||◌, List, [], ◌∷◌, Option, none, some, length, take, blit,
  add_u32, sub_u32, ltb, ◌==◌, if◌then◌else◌, min, ◌%◌, ◌^◌,
}
use go_data_structures.Dpdk.Errors.{Error, full}
use go_data_structures.Dpdk.Shared.{batch_length_error}
use go_data_structures.Dpdk.Copies.{copy_in}
use go_data_structures.Dpdk.Spsc.Defs.State.{
  Queue, advance, capacity, free_slots, load_consumer, is_short,
}

module _ {T : Type 0} where
  -- The write of one item, and its publication.
  unfoldable pub put_item : T → Queue T → Queue T
  put_item item q = record q {
    entries = blit q.entries (bit_and q.producer.cursor q.mask) (item ∷ []);
    producer = advance 1 q.producer;
  }

  -- The two-part write of `enqueueBatch`, and its publication.
  unfoldable pub put_items : List T → Queue T → Queue T
  put_items items q = record q {
    entries = copy_in q.entries (capacity q) (bit_and q.producer.cursor q.mask) items;
    producer = advance (length items) q.producer;
  }

  -- `Enqueue`
  unfoldable pub enqueue : T → Queue T → Option Error × Queue T
  enqueue item q =
      let fresh = load_consumer q in
      if is_short (free_slots q) q
      then (if is_short (free_slots fresh) q
          then (some full, fresh)
          else (none, put_item item fresh))
      else (none, put_item item q)

  -- The end of a batch of one item.
  unfoldable pub one_admitted : T → Queue T → (ℕ × ℕ) × Queue T
  one_admitted item q =
      if ltb (capacity q) (free_slots q)
      then ((0, capacity q), q)
      else if free_slots q == 0
      then ((0, 0), q)
      else ((1, free_slots q - 1), put_item item q)

  -- The batch of one item of `EnqueueBulk` and of `EnqueueBurst`: how many were moved, and the
  -- free slots that are left.
  unfoldable pub enqueue_one : T → Queue T → (ℕ × ℕ) × Queue T
  enqueue_one item q =
      one_admitted item
        (if q.producer.exact || is_short (free_slots q) q then load_consumer q else q)

  -- The end of `enqueueBatch`, from the free slots that the producer now knows of.
  unfoldable pub enqueue_admitted : List T → ℕ → Bool → Queue T → (ℕ × ℕ) × Queue T
  enqueue_admitted items requested fixed q =
      let moved = min requested (free_slots q) in
      if ltb (capacity q) (free_slots q)
      then ((0, capacity q), q)
      else if fixed && ltb (free_slots q) requested
      then ((0, free_slots q), q)
      else if moved == 0
      then ((0, free_slots q), q)
      else ((moved, free_slots q - moved), put_items (take moved items) q)

  -- The batch call's test for a load of the other side's position.
  abbrev pub must_load : ℕ → Queue T → Bool
  must_load requested q =
      q.producer.exact
      || requested == 0
      || ltb (free_slots q) requested
      || ltb (capacity q) (free_slots q)

  -- `enqueueBatch`
  unfoldable pub enqueue_batch : List T → Bool → Queue T → (ℕ × ℕ) × Queue T
  enqueue_batch items fixed q =
      let requested = length items % 2 ^ 32 in
      let ready = (if must_load requested q then load_consumer q else q) in
      enqueue_admitted items requested fixed ready

  -- The count of `EnqueueBulk` for a batch that is too long.
  abbrev pub fresh_free : Queue T → ℕ
  fresh_free q =
      min (sub_u32 (add_u32 (capacity q) q.consumer.published) q.producer.cursor) (capacity q)

  -- The result of a bulk call from how many were moved: all of `n`, or an error.
  abbrev pub bulk_result : ℕ → Error → (ℕ × ℕ) × Queue T → (ℕ × Option Error) × Queue T
  bulk_result n e ((moved, remaining), q) =
      if moved == n then ((remaining, none), q) else ((remaining, some e), q)

  -- `EnqueueBulk`: the free slots that are left, and the error.
  unfoldable pub enqueue_bulk : List T → Queue T → (ℕ × Option Error) × Queue T
  enqueue_bulk [] q = bulk_result 0 full (enqueue_batch [] true q)
  enqueue_bulk (x ∷ []) q =
      if ltb q.producer.max_batch 1
      then ((fresh_free q, some (batch_length_error 1 (capacity q))), q)
      else bulk_result 1 full (enqueue_one x q)
  enqueue_bulk (x ∷ y ∷ items) q =
      let n = length (x ∷ y ∷ items) in
      if ltb q.producer.max_batch n
      then ((fresh_free q, some (batch_length_error n (capacity q))), q)
      else bulk_result n full (enqueue_batch (x ∷ y ∷ items) true q)

  -- The clamped batch of `EnqueueBurst`.
  unfoldable pub enqueue_clamped : List T → Queue T → (ℕ × ℕ) × Queue T
  enqueue_clamped (x ∷ []) q = enqueue_one x q
  enqueue_clamped items q = enqueue_batch items false q

  -- `EnqueueBurst`: how many were moved, and the free slots that are left.
  unfoldable pub enqueue_burst : List T → Queue T → (ℕ × ℕ) × Queue T
  unfolding enqueue_clamped
  enqueue_burst items q = enqueue_clamped (take q.producer.max_batch items) q
