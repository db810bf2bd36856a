-- ===== src/Dpdk/Spsc/Answers.antt =====
-- `Enqueue`, `Dequeue` and the burst calls answer as the bounded queue does.
use go_data_structures.Base.{
  ℕ, ◌+◌, ◌-◌, ◌≤◌, ◌≡◌, refl, sym, ap, ap₂, ◌∙◌, List, [], ◌∷◌, ◌++◌, arith, true, false, Option,
  none, length, ◌==◌, take, drop, take-take, length-take, min, take-append, drop-append,
}
use go_data_structures.Dpdk.Capacity.{capacity_bounds}
use go_data_structures.Dpdk.Errors.{Error, full, empty}
use go_data_structures.Dpdk.Spsc.Spec
use go_data_structures.Dpdk.Spsc.Spec.{
  Call, enqueue, dequeue, enqueue_bulk, enqueue_burst, dequeue_bulk, dequeue_burst, reset, Answer,
  refusal, Limits,
}
use go_data_structures.Dpdk.Spsc.Defs.{Queue}
use go_data_structures.Dpdk.Spsc.Inv.{used-le, contents, limits, length-contents}
use go_data_structures.Dpdk.Spsc.Enqueue.{Enqueues, enqueue_batch-Enqueues, room}
use go_data_structures.Dpdk.Spsc.Dequeue.{Dequeues, dequeue_batch-Dequeues}
use go_data_structures.Dpdk.Spsc.Singles.{
  Enqueued, Dequeued, enqueue_rejected, enqueue_accepted, dequeue_rejected, dequeue_accepted,
  enqueue_lem, dequeue_lem,
}
use go_data_structures.Dpdk.Spsc.Bulk.{enqueue_burst_lem, dequeue_burst_lem}
use go_data_structures.Dpdk.Spsc.Step.{enqueue_answer, dequeue_answer, step, IsReady, Refines}

module _ {T : Type 0} (zeroed : T) where
  module _ {q : Queue T} (v : IsReady q) where
    pub enqueue-Refines :
        (x : T)
        → Refines zeroed q
            (Spec.step (limits q) (enqueue x) (contents zeroed q))
            (step zeroed (enqueue x) q)
    unfolding step Spec.step Spec.put
    enqueue-Refines x = go (enqueue_lem zeroed v.valid x)
      where
        go :
            {r : Option Error × Queue T}
            → Enqueued zeroed q x r
            → Refines zeroed q
                (Spec.step (limits q) (enqueue x) (contents zeroed q))
                (enqueue_answer r)
        go (enqueue_rejected e i c k) =
            let test : (length (contents zeroed q) == q.mask + 1) ≡ true =
              ground (arith, length-contents zeroed q, used-le v.valid) in
            rw test (record { valid = i; kept = k; answer = ap (λ xs. (refusal full, xs)) c })
        go (enqueue_accepted e i c k) =
            let test : (length (contents zeroed q) == q.mask + 1) ≡ false =
              ground (arith, length-contents zeroed q) in
            rw test (record { valid = i; kept = k; answer = ap (λ xs. ((1, [], none), xs)) c })

    pub dequeue-Refines :
        Refines zeroed q (Spec.step (limits q) dequeue (contents zeroed q)) (step zeroed dequeue q)
    unfolding step Spec.step Spec.get
    dequeue-Refines = go (dequeue_lem zeroed v.valid)
      where
        go :
            {r : (T × Option Error) × Queue T}
            → Dequeued zeroed q r
            → Refines zeroed q (Spec.step (limits q) dequeue (contents zeroed q)) (dequeue_answer r)
        go (dequeue_rejected e i c k) =
            rw e (record { valid = i; kept = k; answer = ap (λ xs. (refusal empty, xs)) c })
        go {r = ((x, _), r)} (dequeue_accepted i c k) =
            let test : (length (x ∷ contents zeroed r) == 0) ≡ false = ground arith in
            rw (c, test) (record { valid = i; kept = k; answer = refl })

    pub put_lem :
        {items : List T} {m : ℕ} {r : (ℕ × ℕ) × Queue T}
        → m ≤ length items
        → Enqueues zeroed q items m r
        → ((r.0.0, [], none), contents zeroed r.1)
          ≡ Spec.put (limits q) (take m items) (contents zeroed q)
    unfolding Spec.put
    put_lem {items} {m} {r} h e =
        let few : length (take m items) ≡ m = omega (arith, length-take m items) in
        ap₂ (λ k xs. ((k, [], none), xs)) (e.moved ∙ sym few) e.held

    pub get_lem :
        {n m : ℕ} {r : (List T × ℕ) × Queue T}
        → Dequeues zeroed q n m r
        → ((0, r.0.0, none), contents zeroed r.1) ≡ Spec.get (limits q) m (contents zeroed q)
    unfolding Spec.get
    get_lem {n} {m} {r} e =
        let xs = r.0.0 in
        let ys = contents zeroed r.1 in
        let front : take m (xs ++ ys) ≡ xs =
          ap (λ k. take k (xs ++ ys)) (sym e.moved) ∙ take-append xs ys in
        let back : drop m (xs ++ ys) ≡ ys =
          ap (λ k. drop k (xs ++ ys)) (sym e.moved) ∙ drop-append xs ys in
        rw (e.held, front, back) refl

    pub enqueue_burst-Refines :
        (items : List T)
        → Refines zeroed q
            (Spec.step (limits q) (enqueue_burst items) (contents zeroed q))
            (step zeroed (enqueue_burst items) q)
    unfolding step Spec.step
    enqueue_burst-Refines items =
        let limit = q.producer.max_batch in
        let passed = take limit items in
        let few : length passed ≡ min limit (length items) = length-take limit items in
        let e =
          enqueue_batch-Enqueues zeroed v.valid passed false
            (omega (arith, few, v.enqueue_limit, capacity_bounds v.valid.shape)) in
        let moved = min (min (length items) limit) (q.mask + 1 - length (contents zeroed q)) in
        let same : min (length passed) (room q) ≡ moved =
          omega (arith, few, length-contents zeroed q) in
        rw (enqueue_burst_lem zeroed v.valid items) (record {
          valid = e.valid;
          kept = e.kept;
          answer =
              put_lem (omega arith) e
              ∙ ap (λ k. Spec.put (limits q) (take k passed) (contents zeroed q)) same
              ∙ ap (λ xs. Spec.put (limits q) xs (contents zeroed q))
                  (take-take moved limit items (omega arith));
        })

    pub dequeue_burst-Refines :
        (n : ℕ)
        → Refines zeroed q
            (Spec.step (limits q) (dequeue_burst n) (contents zeroed q))
            (step zeroed (dequeue_burst n) q)
    unfolding step Spec.step
    dequeue_burst-Refines n =
        let limit = q.consumer.max_batch in
        let e =
          dequeue_batch-Dequeues zeroed v.valid (min n limit) false
            (omega (arith, v.dequeue_limit, capacity_bounds v.valid.shape)) in
        rw (dequeue_burst_lem zeroed v.valid n) (record {
          valid = e.valid;
          kept = e.kept;
          answer =
              get_lem e
              ∙ ap (λ k. Spec.get (limits q) (min (min n limit) k) (contents zeroed q))
                  (sym (length-contents zeroed q));
        })
