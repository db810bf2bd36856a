-- ===== src/Dpdk/Spsc/DequeueOne.antt =====
-- The fast path of the consumer's batch calls for one item: the general path gives the same.
use go_data_structures.Base.{
  ◌-◌, ◌≤◌, ◌≡◌, sym, ap₂, ◌∙◌, [], ◌∷◌, arith, Bool, true, false, ◌||◌, Bool-cases, inl, inr,
  lt_or_le,
}
use go_data_structures.Dpdk.Spsc.Defs.{
  Queue, filled_slots, is_short, must_reload, take_item, take_items, one_taken, dequeue_one,
  dequeue_admitted, dequeue_batch,
}
use go_data_structures.Dpdk.Spsc.Inv.{IsValid, used-le, capacity_lem}
use go_data_structures.Dpdk.Spsc.Take.{take_item_state, take_item_value}
use go_data_structures.Dpdk.Spsc.Dequeue.{load_producer-IsValid}

module _ {T : Type 0} (zeroed : T) {q : Queue T} (v : IsValid q) where
  one_taken_none :
      (fixed : Bool) → filled_slots q ≡ 0 → one_taken zeroed q ≡ dequeue_admitted zeroed 1 fixed q
  unfolding one_taken dequeue_admitted
  one_taken_none true e = ground (arith, used-le v, capacity_lem v)
  one_taken_none false e = ground (arith, used-le v, capacity_lem v)

  one_taken_some :
      1 ≤ filled_slots q
      → one_taken zeroed q
        ≡ ((((take_item zeroed q).0 ∷ []), filled_slots q - 1), (take_item zeroed q).1)
  unfolding one_taken
  one_taken_some h = ground (arith, used-le v, capacity_lem v)

  admitted_one :
      (fixed : Bool)
      → 1 ≤ filled_slots q
      → dequeue_admitted zeroed 1 fixed q
        ≡ (((take_items zeroed 1 q).0, filled_slots q - 1), (take_items zeroed 1 q).1)
  unfolding dequeue_admitted
  admitted_one true h = ground (arith, used-le v, capacity_lem v)
  admitted_one false h = ground (arith, used-le v, capacity_lem v)

  one_taken_lem : (fixed : Bool) → one_taken zeroed q ≡ dequeue_admitted zeroed 1 fixed q
  one_taken_lem fixed = elim (lt_or_le (filled_slots q) 1) [
    | inl h ↦ one_taken_none fixed (omega arith)
    | inr h ↦
        one_taken_some h
        ∙ ap₂ (λ xs r. ((xs, filled_slots q - 1), r)) (take_item_value zeroed v h)
            (take_item_state zeroed v)
        ∙ sym (admitted_one fixed h)
  ]

  same_test : (q.consumer.exact || is_short (filled_slots q) q) ≡ must_reload 1 q
  same_test = ground arith

module _ {T : Type 0} (zeroed : T) {q : Queue T} (v : IsValid q) where
  -- On a valid queue the fast path of `DequeueBulk` and `DequeueBurst` for one item has the result
  -- of the general path, as a bulk and as a burst, and leaves the same queue.
  pub dequeue_one_lem : (fixed : Bool) → dequeue_one zeroed q ≡ dequeue_batch zeroed 1 fixed q
  unfolding dequeue_one dequeue_batch
  dequeue_one_lem fixed = rw (same_test zeroed v) (elim (Bool-cases (must_reload 1 q)) [
    | inl e ↦ rw e (one_taken_lem zeroed (load_producer-IsValid zeroed v) fixed)
    | inr e ↦ rw e (one_taken_lem zeroed v fixed)
  ])
