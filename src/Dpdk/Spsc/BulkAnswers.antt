-- ===== src/Dpdk/Spsc/BulkAnswers.antt =====
-- The bulk calls answer as the bounded queue does.
use go_data_structures.Base.{
  ℕ, ◌<◌, ◌^◌, ◌≡◌, ◌≢◌, refl, sym, ap, ◌∙◌, List, [], ◌++◌, arith, true, false, none, some, length,
  ltb, ◌==◌, if◌then◌else◌, Bool-cases, inl, inr, take_all, lt_or_le,
}
use mathlib.Core.List.{append-nil}
use go_data_structures.Dpdk.Capacity.{capacity_bounds}
use go_data_structures.Dpdk.Errors.{full, empty}
use go_data_structures.Dpdk.Shared.{batch_length_error}
use go_data_structures.Dpdk.Spsc.Spec
use go_data_structures.Dpdk.Spsc.Spec.{
  Call, enqueue, dequeue, enqueue_bulk, enqueue_burst, dequeue_bulk, dequeue_burst, reset, Answer,
  refusal, Limits,
}
use go_data_structures.Dpdk.Spsc.Defs.{Queue, capacity, bulk_result, bulk_items}
use go_data_structures.Dpdk.Spsc.Inv.{used, contents, limits, capacity_lem, length-contents}
use go_data_structures.Dpdk.Spsc.Enqueue.{Enqueues, enqueue_batch-Enqueues, admitted, room}
use go_data_structures.Dpdk.Spsc.Dequeue.{Dequeues, dequeue_batch-Dequeues}
use go_data_structures.Dpdk.Spsc.Singles.{nil_of}
use go_data_structures.Dpdk.Spsc.Bulk.{
  enqueue_bulk_lem, enqueue_bulk_long, dequeue_bulk_lem, dequeue_bulk_long,
}
use go_data_structures.Dpdk.Spsc.Step.{bulk_answer, step, IsReady, Refines}
use go_data_structures.Dpdk.Spsc.Answers.{get_lem}

module _ {T : Type 0} (zeroed : T) where
  module _ {q : Queue T} (v : IsReady q) where
    -- The error of a batch that is too long.
    long_error :
        (n : ℕ) → n < 2 ^ 63 → batch_length_error n (capacity q) ≡ Spec.too_long n (limits q)
    unfolding batch_length_error
    long_error n h = ground (arith, capacity_lem v.valid, capacity_bounds v.valid.shape)

    bulk_put :
        {items : List T} {r : (ℕ × ℕ) × Queue T}
        → Enqueues zeroed q items (admitted true (length items) (room q)) r
        → Refines zeroed q
            (if ltb (room q) (length items)
              then (refusal full, contents zeroed q)
              else Spec.put (limits q) items (contents zeroed q))
            (bulk_answer (length items) (bulk_result (length items) full r))
    unfolding Spec.put
    bulk_put {items} {r} e = elim (Bool-cases (ltb (room q) (length items))) [
      | inl short ↦
          let some_asked : length items ≢ 0 = ground arith in
          let none_moved : r.0.0 ≡ 0 = e.moved ∙ ap (λ b. if b then 0 else length items) short in
          let test : (r.0.0 == length items) ≡ false = ground arith in
          rw (short, test)
            (record {
              valid = e.valid;
              kept = e.kept;
              answer =
                  ap (λ xs. (refusal full, xs))
                    (rw short at e.held ∙ append-nil (contents zeroed q));
            })
      | inr fits ↦
          let all_moved : r.0.0 ≡ length items =
            e.moved ∙ ap (λ b. if b then 0 else length items) fits in
          let test : (r.0.0 == length items) ≡ true = ground arith in
          rw (fits, test)
            (record {
              valid = e.valid;
              kept = e.kept;
              answer =
                  ap (λ xs. ((length items, [], none), xs))
                    ((rw fits at e.held)
                      ∙ ap (λ xs. contents zeroed q ++ xs)
                          (take_all (length items) items (omega arith)));
            })
    ]

    pub enqueue_bulk-Refines :
        (items : List T)
        → length items < 2 ^ 63
        → Refines zeroed q
            (Spec.step (limits q) (enqueue_bulk items) (contents zeroed q))
            (step zeroed (enqueue_bulk items) q)
    unfolding step Spec.step
    enqueue_bulk-Refines items h = elim (lt_or_le q.producer.max_batch (length items)) [
      | inl long ↦
          let test : ltb q.producer.max_batch (length items) ≡ true = ground arith in
          rw (enqueue_bulk_long zeroed v.valid items long, test, long_error (length items) h)
            (record { valid = v.valid; kept = refl; answer = refl })
      | inr fits ↦
          let e =
            enqueue_batch-Enqueues zeroed v.valid items true
              (omega (arith, v.enqueue_limit, capacity_bounds v.valid.shape)) in
          let test : ltb q.producer.max_batch (length items) ≡ false = ground arith in
          rw (enqueue_bulk_lem zeroed v.valid items fits, test, length-contents zeroed q)
            (bulk_put e)
    ]

    bulk_get :
        {n : ℕ} {r : (List T × ℕ) × Queue T}
        → Dequeues zeroed q n (admitted true n (used q)) r
        → Refines zeroed q
            (if ltb (used q) n
              then (refusal empty, contents zeroed q)
              else Spec.get (limits q) n (contents zeroed q))
            (let ((xs, available, e), r') = bulk_items n r in ((0, xs, e), r'))
    bulk_get {n} {r} e = elim (Bool-cases (ltb (used q) n)) [
      | inl short ↦
          let some_asked : n ≢ 0 = ground arith in
          let none_moved : length r.0.0 ≡ 0 = e.moved ∙ ap (λ b. if b then 0 else n) short in
          let no_items : r.0.0 ≡ [] = nil_of r.0.0 none_moved in
          let test : (length r.0.0 == n) ≡ false = ground arith in
          rw (short, test)
            (record {
              valid = e.valid;
              kept = e.kept;
              answer =
                  ap (λ xs. ((0, xs, some empty), contents zeroed r.1)) no_items
                  ∙ ap (λ xs. (refusal empty, xs))
                      (sym (e.held ∙ ap (λ xs. xs ++ contents zeroed r.1) no_items));
            })
      | inr fits ↦
          let all : admitted true n (used q) ≡ n = ap (λ b. if b then 0 else n) fits in
          let test : (length r.0.0 == n) ≡ true =
            ap (λ k. k == n) (e.moved ∙ all) ∙ (let t : (n == n) ≡ true = ground arith in t) in
          rw (fits, test)
            (record {
              valid = e.valid;
              kept = e.kept;
              answer = get_lem zeroed v e ∙ ap (λ k. Spec.get (limits q) k (contents zeroed q)) all;
            })
    ]

    pub dequeue_bulk-Refines :
        (n : ℕ)
        → n < 2 ^ 63
        → Refines zeroed q
            (Spec.step (limits q) (dequeue_bulk n) (contents zeroed q))
            (step zeroed (dequeue_bulk n) q)
    unfolding step Spec.step
    dequeue_bulk-Refines n h = elim (lt_or_le q.consumer.max_batch n) [
      | inl long ↦
          let test : ltb q.consumer.max_batch n ≡ true = ground arith in
          rw (dequeue_bulk_long zeroed v.valid n long, test, long_error n h)
            (record { valid = v.valid; kept = refl; answer = refl })
      | inr fits ↦
          let e =
            dequeue_batch-Dequeues zeroed v.valid n true
              (omega (arith, v.dequeue_limit, capacity_bounds v.valid.shape)) in
          let test : ltb q.consumer.max_batch n ≡ false = ground arith in
          rw (dequeue_bulk_lem zeroed v.valid n fits, test, length-contents zeroed q) (bulk_get e)
    ]
