-- ===== src/Dpdk/Spsc/Bulk.antt =====
-- `EnqueueBulk`, `EnqueueBurst`, `DequeueBulk` and `DequeueBurst`: what is put in front of a batch.
use go_data_structures.Base.{
  ℕ, ◌≤◌, ◌<◌, ◌≡◌, refl, ap, List, [], ◌∷◌, arith, true, false, some, length, ltb, ◌==◌, take, min,
}
use native.Mathlib.Decide.{ℕ_discrete}
use go_data_structures.Dpdk.Errors.{full}
use go_data_structures.Dpdk.Shared.{batch_length_error}
use go_data_structures.Dpdk.Spsc.Defs.{
  Queue, capacity, enqueue_batch, enqueue_bulk, enqueue_burst, enqueue_clamped, bulk_result,
  fresh_free, fresh_filled, dequeue_batch, dequeue_bulk, dequeue_burst, bulk_items,
}
use go_data_structures.Dpdk.Spsc.Inv.{IsValid}
use go_data_structures.Dpdk.Spsc.EnqueueOne.{enqueue_one_lem}
use go_data_structures.Dpdk.Spsc.DequeueOne.{dequeue_one_lem}

module _ {T : Type 0} (zeroed : T) {q : Queue T} (v : IsValid q) where
  -- A burst is the batch of the items that its limit lets through.
  pub enqueue_burst_lem :
      (items : List T)
      → enqueue_burst items q ≡ enqueue_batch (take q.producer.max_batch items) false q
  unfolding enqueue_burst enqueue_clamped
  enqueue_burst_lem items = go (take q.producer.max_batch items)
    where
      go : (xs : List T) → enqueue_clamped xs q ≡ enqueue_batch xs false q
      go [] = refl
      go (x ∷ []) = enqueue_one_lem zeroed v x false
      go (x ∷ y ∷ xs) = refl

  pub dequeue_burst_lem :
      (n : ℕ) → dequeue_burst zeroed n q ≡ dequeue_batch zeroed (min n q.consumer.max_batch) false q
  unfolding dequeue_burst
  dequeue_burst_lem n = elim (ℕ_discrete (min n q.consumer.max_batch) 1) [
    | yes e ↦ rw e (dequeue_one_lem zeroed v false)
    | no e ↦ let test : (min n q.consumer.max_batch == 1) ≡ false = ground arith in rw test refl
  ]

  -- A bulk call within the limit is a batch of all or nothing.
  pub enqueue_bulk_lem :
      (items : List T)
      → length items ≤ q.producer.max_batch
      → enqueue_bulk items q ≡ bulk_result (length items) full (enqueue_batch items true q)
  unfolding enqueue_bulk
  enqueue_bulk_lem [] h = refl
  enqueue_bulk_lem (x ∷ []) h =
      let test : ltb q.producer.max_batch 1 ≡ false = ground arith in
      rw test (ap (bulk_result 1 full) (enqueue_one_lem zeroed v x true))
  enqueue_bulk_lem (x ∷ y ∷ items) h =
      let test : ltb q.producer.max_batch (length (x ∷ y ∷ items)) ≡ false = ground arith in
      rw test refl

  pub enqueue_bulk_long :
      (items : List T)
      → q.producer.max_batch < length items
      → enqueue_bulk items q
        ≡ ((fresh_free q, some (batch_length_error (length items) (capacity q))), q)
  unfolding enqueue_bulk
  enqueue_bulk_long [] h = absurd (omega arith)
  enqueue_bulk_long (x ∷ []) h =
      let test : ltb q.producer.max_batch 1 ≡ true = ground arith in rw test refl
  enqueue_bulk_long (x ∷ y ∷ items) h =
      let test : ltb q.producer.max_batch (length (x ∷ y ∷ items)) ≡ true = ground arith in
      rw test refl

  pub dequeue_bulk_lem :
      (n : ℕ)
      → n ≤ q.consumer.max_batch
      → dequeue_bulk zeroed n q ≡ bulk_items n (dequeue_batch zeroed n true q)
  unfolding dequeue_bulk
  dequeue_bulk_lem n h =
      let short : ltb q.consumer.max_batch n ≡ false = ground arith in
      rw short (elim (ℕ_discrete n 1) [
        | yes e ↦ rw e (ap (bulk_items 1) (dequeue_one_lem zeroed v true))
        | no e ↦ let test : (n == 1) ≡ false = ground arith in rw test refl
      ])

  pub dequeue_bulk_long :
      (n : ℕ)
      → q.consumer.max_batch < n
      → dequeue_bulk zeroed n q
        ≡ (([], fresh_filled q, some (batch_length_error n (capacity q))), q)
  unfolding dequeue_bulk
  dequeue_bulk_long n h =
      let test : ltb q.consumer.max_batch n ≡ true = ground arith in rw test refl
