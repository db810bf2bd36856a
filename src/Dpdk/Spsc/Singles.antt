-- ===== src/Dpdk/Spsc/Singles.antt =====
-- `Enqueue` and `Dequeue`.
use go_data_structures.Base.{
  ◌+◌, ◌≤◌, ◌<◌, ◌≡◌, refl, sym, ap, ◌∙◌, List, [], ◌∷◌, ◌++◌, arith, true, false, Option, none,
  some, length, ◌==◌,
}
use native.Mathlib.Decide.{ℕ_discrete}
use go_data_structures.Dpdk.Errors.{Error, full, empty}
use go_data_structures.Dpdk.Spsc.Defs.{
  Queue, free_slots, filled_slots, load_consumer, load_producer, is_short, put_item, take_item,
  take_items, enqueue, dequeue,
}
use go_data_structures.Dpdk.Spsc.Inv.{
  IsValid, used, used-le, seen_used, contents, limits, capacity_lem, length-contents,
}
use go_data_structures.Dpdk.Spsc.Put.{put_item_lem, put_items-IsValid, contents-put_items}
use go_data_structures.Dpdk.Spsc.Take.{
  take_items-IsValid, contents-take_items, take_item_state, take_item_value,
}
use go_data_structures.Dpdk.Spsc.Enqueue.{
  room, load_consumer-IsValid, free_slots_lem, free_slots_fresh, put_items-limits,
}
use go_data_structures.Dpdk.Spsc.Dequeue.{
  load_producer-IsValid, filled_slots_fresh, take_items-limits,
}

pub nil_of : {T : Type 0} → (xs : List T) → length xs ≡ 0 → xs ≡ []
nil_of [] e = refl
nil_of (x ∷ xs) e = absurd (omega arith)

module _ {T : Type 0} (zeroed : T) where
  -- What `Enqueue` does when the queue is full, and when it is not.
  pub data Enqueued (q : Queue T) (x : T) : Option Error × Queue T → Type 0 where
    enqueue_rejected :
        {r : Queue T}
        → room q ≡ 0
        → IsValid r
        → contents zeroed r ≡ contents zeroed q
        → limits r ≡ limits q
        → Enqueued q x (some full, r)
    enqueue_accepted :
        {r : Queue T}
        → 0 < room q
        → IsValid r
        → contents zeroed r ≡ contents zeroed q ++ (x ∷ [])
        → limits r ≡ limits q
        → Enqueued q x (none, r)

  -- What `Dequeue` does when the queue is empty, and when it is not.
  pub data Dequeued (q : Queue T) : (T × Option Error) × Queue T → Type 0 where
    dequeue_rejected :
        {r : Queue T}
        → contents zeroed q ≡ []
        → IsValid r
        → contents zeroed r ≡ []
        → limits r ≡ limits q
        → Dequeued q ((zeroed, some empty), r)
    dequeue_accepted :
        {x : T} {r : Queue T}
        → IsValid r
        → contents zeroed q ≡ x ∷ contents zeroed r
        → limits r ≡ limits q
        → Dequeued q ((x, none), r)

  module _ {q : Queue T} (v : IsValid q) where
    put_item-Enqueued : (x : T) → 0 < free_slots q → Enqueued q x (none, put_item x q)
    put_item-Enqueued x h =
        let (_, low) = free_slots_lem zeroed v in
        let fits : seen_used q + 1 ≤ q.mask + 1 = omega (arith, free_slots_lem zeroed v) in
        rw (put_item_lem zeroed v x) (
          enqueue_accepted (omega arith) (put_items-IsValid zeroed v (x ∷ []) fits)
            (contents-put_items zeroed v (x ∷ []) fits) (put_items-limits (x ∷ []) q))

    short_lem : is_short (free_slots q) q ≡ (free_slots q == 0)
    short_lem = ground (arith, free_slots_lem zeroed v, capacity_lem v)

    take_item-Dequeued :
        1 ≤ filled_slots q → Dequeued q (((take_item zeroed q).0, none), (take_item zeroed q).1)
    take_item-Dequeued h = rw (take_item_state zeroed v) (
        dequeue_accepted (take_items-IsValid zeroed v 1 h)
          (contents-take_items zeroed v 1 h
            ∙ ap (λ xs. xs ++ contents zeroed (take_items zeroed 1 q).1)
                (sym (take_item_value zeroed v h)))
          (take_items-limits zeroed 1 q))

    short_lem_consumer : is_short (filled_slots q) q ≡ (filled_slots q == 0)
    short_lem_consumer = ground (arith, used-le v, capacity_lem v)

module _ {T : Type 0} (zeroed : T) {q : Queue T} (v : IsValid q) where
  fresh : IsValid (load_consumer q)
  fresh = load_consumer-IsValid zeroed v

  -- On a valid queue `Enqueue` returns `ErrFull` and keeps the items if the queue is full, and
  -- otherwise puts the item behind those held, whatever the producer's cache holds. The queue stays
  -- valid and configured as it was.
  pub enqueue_lem : (x : T) → Enqueued zeroed q x (enqueue x q)
  unfolding enqueue contents
  enqueue_lem x = elim (ℕ_discrete (free_slots q) 0) [
    | no e ↦
        let test : is_short (free_slots q) q ≡ false = short_lem zeroed v ∙ ground arith in
        rw test (put_item-Enqueued zeroed v x (omega arith))
    | yes e ↦
        let test : is_short (free_slots q) q ≡ true = short_lem zeroed v ∙ ground arith in
        rw test (elim (ℕ_discrete (room q) 0) [
          | yes e' ↦
              let again : is_short (free_slots (load_consumer q)) q ≡ true =
                short_lem zeroed fresh ∙ ap (λ k. k == 0) (free_slots_fresh zeroed v ∙ e') in
              rw again (enqueue_rejected e' fresh refl refl)
          | no e' ↦
              let again : is_short (free_slots (load_consumer q)) q ≡ false =
                short_lem zeroed fresh
                ∙ ap (λ k. k == 0) (free_slots_fresh zeroed v)
                ∙ ground arith in
              rw again (
                from_fresh x
                  (put_item-Enqueued zeroed fresh x (omega (arith, free_slots_fresh zeroed v))))
        ])
  ]
    where
      from_fresh :
          (x : T)
          → {r : Option Error × Queue T} → Enqueued zeroed (load_consumer q) x r
          → Enqueued zeroed q x r
      from_fresh x (enqueue_rejected a b c d) = enqueue_rejected a b c d
      from_fresh x (enqueue_accepted a b c d) = enqueue_accepted a b c d

  -- On a valid queue `Dequeue` returns the zero value and `ErrEmpty` if the queue is empty, and
  -- otherwise returns the oldest item and keeps the others, whatever the consumer's cache holds. The
  -- queue stays valid and configured as it was.
  pub dequeue_lem : Dequeued zeroed q (dequeue zeroed q)
  unfolding dequeue contents
  dequeue_lem = elim (ℕ_discrete (filled_slots q) 0) [
    | no e ↦
        let test : is_short (filled_slots q) q ≡ false =
          short_lem_consumer zeroed v ∙ ground arith in
        rw test (take_item-Dequeued zeroed v (omega arith))
    | yes e ↦
        let test : is_short (filled_slots q) q ≡ true =
          short_lem_consumer zeroed v ∙ ground arith in
        rw test (elim (ℕ_discrete (used q) 0) [
          | yes e' ↦
              let again : is_short (filled_slots (load_producer q)) q ≡ true =
                short_lem_consumer zeroed loaded
                ∙ ap (λ k. k == 0) (filled_slots_fresh zeroed v ∙ e') in
              rw again (dequeue_rejected (nothing e') loaded (nothing e') refl)
          | no e' ↦
              let again : is_short (filled_slots (load_producer q)) q ≡ false =
                short_lem_consumer zeroed loaded
                ∙ ap (λ k. k == 0) (filled_slots_fresh zeroed v)
                ∙ ground arith in
              rw again (
                from_loaded
                  (take_item-Dequeued zeroed loaded (omega (arith, filled_slots_fresh zeroed v))))
        ])
  ]
    where
      loaded : IsValid (load_producer q)
      loaded = load_producer-IsValid zeroed v

      nothing : used q ≡ 0 → contents zeroed q ≡ []
      nothing e = nil_of (contents zeroed q) (length-contents zeroed q ∙ e)

      from_loaded :
          {r : (T × Option Error) × Queue T}
          → Dequeued zeroed (load_producer q) r
          → Dequeued zeroed q r
      from_loaded (dequeue_rejected a b c d) = dequeue_rejected a b c d
      from_loaded (dequeue_accepted a b c) = dequeue_accepted a b c
