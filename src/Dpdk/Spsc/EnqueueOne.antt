-- ===== src/Dpdk/Spsc/EnqueueOne.antt =====
-- `Enqueue`, and the fast path of the batch calls for one item: the general path gives the same.
use go_data_structures.Base.{◌≡◌, [], ◌∷◌, arith, Bool, true, false, ◌||◌, Bool-cases, inl, inr}
use go_data_structures.Dpdk.Spsc.Defs.{
  Queue, free_slots, is_short, must_load, one_admitted, enqueue_one, enqueue_admitted,
  enqueue_batch,
}
use go_data_structures.Dpdk.Spsc.Inv.{IsValid, capacity_lem}
use go_data_structures.Dpdk.Spsc.Put.{put_item_lem}
use go_data_structures.Dpdk.Spsc.Enqueue.{load_consumer-IsValid, free_slots_lem}

module _ {T : Type 0} (zeroed : T) {q : Queue T} (v : IsValid q) where
  one_admitted_lem : (x : T) (fixed : Bool) → one_admitted x q ≡ enqueue_admitted (x ∷ []) 1 fixed q
  unfolding one_admitted enqueue_admitted
  one_admitted_lem x true =
      ground (arith, free_slots_lem zeroed v, capacity_lem v, put_item_lem zeroed v x)
  one_admitted_lem x false =
      ground (arith, free_slots_lem zeroed v, capacity_lem v, put_item_lem zeroed v x)

  same_test : (q.producer.exact || is_short (free_slots q) q) ≡ must_load 1 q
  same_test = ground arith

module _ {T : Type 0} (zeroed : T) {q : Queue T} (v : IsValid q) where
  -- On a valid queue the fast path of `EnqueueBulk` and `EnqueueBurst` for one item has the result
  -- of the general path, as a bulk and as a burst, and leaves the same queue.
  pub enqueue_one_lem : (x : T) (fixed : Bool) → enqueue_one x q ≡ enqueue_batch (x ∷ []) fixed q
  unfolding enqueue_one enqueue_batch
  enqueue_one_lem x fixed = rw (same_test zeroed v) (elim (Bool-cases (must_load 1 q)) [
    | inl e ↦ rw e (one_admitted_lem zeroed (load_consumer-IsValid zeroed v) x fixed)
    | inr e ↦ rw e (one_admitted_lem zeroed v x fixed)
  ])
