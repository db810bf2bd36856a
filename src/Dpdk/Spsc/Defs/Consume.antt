-- ===== src/Dpdk/Spsc/Defs/Consume.antt =====
-- ring/dpdk/spsc.go: the methods of the consumer.
use Prim.Native.Nat.{bit_and}
use go_data_structures.Base.{
  ℕ, ◌-◌, Bool, true, false, ◌&&◌, ◌||◌, List, [], ◌∷◌, Option, none, some, length, get_or, blit,
  replicate, sub_u32, ltb, ◌==◌, if◌then◌else◌, min, ◌%◌, ◌^◌,
}
use go_data_structures.Dpdk.Errors.{Error, empty}
use go_data_structures.Dpdk.Shared.{batch_length_error}
use go_data_structures.Dpdk.Copies.{copy_out, first_part}
use go_data_structures.Dpdk.Spsc.Defs.State.{
  Queue, advance, capacity, filled_slots, load_producer, is_short,
}

module _ {T : Type 0} where
  -- The result of a bulk call of the consumer from the items moved.
  abbrev pub bulk_items : ℕ → (List T × ℕ) × Queue T → (List T × ℕ × Option Error) × Queue T
  bulk_items n ((xs, remaining), q) =
      if length xs == n then ((xs, remaining, none), q) else ((xs, remaining, some empty), q)

  -- The count of `DequeueBulk` for a batch that is too long.
  abbrev pub fresh_filled : Queue T → ℕ
  fresh_filled q = min (sub_u32 q.producer.published q.consumer.cursor) (capacity q)

  abbrev pub must_reload : ℕ → Queue T → Bool
  must_reload requested q =
      q.consumer.exact
      || requested == 0
      || ltb (filled_slots q) requested
      || ltb (capacity q) (filled_slots q)

module _ {T : Type 0} (zeroed : T) where
  -- The read of one item, its slot cleared if so configured, and the release of the slot.
  unfoldable pub take_item : Queue T → T × Queue T
  take_item q =
      let index = bit_and q.consumer.cursor q.mask in
      (
        get_or q.entries index zeroed,
        record q {
          entries = if q.clear_on_dequeue then blit q.entries index (zeroed ∷ []) else q.entries;
          consumer = advance 1 q.consumer;
        },
      )

  -- `clear(entries[base:base+first])` and `clear(entries[:length-first])`.
  unfoldable pub clear_slots : List T → ℕ → ℕ → ℕ → List T
  clear_slots entries bound base n =
      let first = first_part bound base n in
      blit (blit entries base (replicate first zeroed)) 0 (replicate (n - first) zeroed)

  -- The two-part read of `dequeueBatch`, and the release of the slots.
  unfoldable pub take_items : ℕ → Queue T → List T × Queue T
  take_items n q =
      let base = bit_and q.consumer.cursor q.mask in
      (
        copy_out q.entries (capacity q) base n,
        record q {
          entries =
              if q.clear_on_dequeue then clear_slots q.entries (capacity q) base n else q.entries;
          consumer = advance n q.consumer;
        },
      )

  -- `Dequeue`: the item, or the error.
  unfoldable pub dequeue : Queue T → (T × Option Error) × Queue T
  dequeue q =
      let fresh = load_producer q in
      if is_short (filled_slots q) q
      then (if is_short (filled_slots fresh) q
          then ((zeroed, some empty), fresh)
          else (let (x, r) = take_item fresh in ((x, none), r)))
      else (let (x, r) = take_item q in ((x, none), r))

  -- The end of a batch of one item.
  unfoldable pub one_taken : Queue T → (List T × ℕ) × Queue T
  one_taken q =
      if ltb (capacity q) (filled_slots q)
      then (([], capacity q), q)
      else if filled_slots q == 0
      then (([], 0), q)
      else (let (x, r) = take_item q in ((x ∷ [], filled_slots q - 1), r))

  -- The batch of one item of `DequeueBulk` and of `DequeueBurst`: the items moved, and the items
  -- that are left.
  unfoldable pub dequeue_one : Queue T → (List T × ℕ) × Queue T
  dequeue_one q =
      one_taken (if q.consumer.exact || is_short (filled_slots q) q then load_producer q else q)

  -- The end of `dequeueBatch`, from the items that the consumer now knows of.
  unfoldable pub dequeue_admitted : ℕ → Bool → Queue T → (List T × ℕ) × Queue T
  dequeue_admitted requested fixed q =
      let moved = min requested (filled_slots q) in
      if ltb (capacity q) (filled_slots q)
      then (([], capacity q), q)
      else if fixed && ltb (filled_slots q) requested
      then (([], filled_slots q), q)
      else if moved == 0
      then (([], filled_slots q), q)
      else (let (xs, r) = take_items moved q in ((xs, filled_slots q - moved), r))

  -- `dequeueBatch` into a slice of `n` elements.
  unfoldable pub dequeue_batch : ℕ → Bool → Queue T → (List T × ℕ) × Queue T
  dequeue_batch n fixed q =
      let requested = n % 2 ^ 32 in
      let ready = (if must_reload requested q then load_producer q else q) in
      dequeue_admitted requested fixed ready

  -- `DequeueBulk` into a slice of `n` elements: the items stored in it, the items that are left,
  -- and the error.
  unfoldable pub dequeue_bulk : ℕ → Queue T → (List T × ℕ × Option Error) × Queue T
  dequeue_bulk n q =
      if ltb q.consumer.max_batch n
      then (([], fresh_filled q, some (batch_length_error n (capacity q))), q)
      else if n == 1
      then bulk_items 1 (dequeue_one q)
      else bulk_items n (dequeue_batch n true q)

  -- `DequeueBurst` into a slice of `n` elements.
  unfoldable pub dequeue_burst : ℕ → Queue T → (List T × ℕ) × Queue T
  dequeue_burst n q =
      let clamped = min n q.consumer.max_batch in
      if clamped == 1 then dequeue_one q else dequeue_batch clamped false q
