-- ===== src/Dpdk/Spsc/Calls.antt =====
-- Sequences of calls of one queue, of either side, against the bounded queue of Spec.
use go_data_structures.Base.{
  ◌≡◌, refl, ap, ap₂, ◌∙◌, List, [], ◌∷◌, arith, length, length-blit, replicate,
}
use go_data_structures.Dpdk.Spsc.Spec
use go_data_structures.Dpdk.Spsc.Spec.{
  Call, enqueue, dequeue, enqueue_bulk, enqueue_burst, dequeue_bulk, dequeue_burst, reset, Answer,
  refusal, Limits,
}
use go_data_structures.Dpdk.Window.{window}
use go_data_structures.Dpdk.Spsc.Defs
use go_data_structures.Dpdk.Spsc.Defs.{Queue, Side, capacity, bulk_result, bulk_items}
use go_data_structures.Dpdk.Spsc.Inv.{IsValid, contents, limits}
use go_data_structures.Dpdk.Spsc.Step.{step, run, InRange, AllInRange, IsReady, Refines}
use go_data_structures.Dpdk.Spsc.Answers.{
  enqueue-Refines, dequeue-Refines, enqueue_burst-Refines, dequeue_burst-Refines,
}
use go_data_structures.Dpdk.Spsc.BulkAnswers.{enqueue_bulk-Refines, dequeue_bulk-Refines}

module _ {T : Type 0} (zeroed : T) where
  module _ {q : Queue T} (v : IsReady q) where
    reset-Refines :
        Refines zeroed q (Spec.step (limits q) reset (contents zeroed q)) (step zeroed reset q)
    unfolding step Spec.step Defs.reset contents window
    reset-Refines = record {
      valid = record {
        shape = v.valid.shape;
        size = length-blit q.entries 0 (replicate (length q.entries) zeroed) ∙ v.valid.size;
        producer_positions = omega arith;
        consumer_positions = omega arith;
        producer_cache = omega arith;
        consumer_cache = omega arith;
      };
      kept = refl;
      answer = refl;
    }

    step-Refines :
        (c : Call T)
        → InRange c
        → Refines zeroed q (Spec.step (limits q) c (contents zeroed q)) (step zeroed c q)
    step-Refines (enqueue x) h = enqueue-Refines zeroed v x
    step-Refines dequeue h = dequeue-Refines zeroed v
    step-Refines (enqueue_bulk items) h = enqueue_bulk-Refines zeroed v items h
    step-Refines (enqueue_burst items) h = enqueue_burst-Refines zeroed v items
    step-Refines (dequeue_bulk n) h = dequeue_bulk-Refines zeroed v n h
    step-Refines (dequeue_burst n) h = dequeue_burst-Refines zeroed v n
    step-Refines reset h = reset-Refines

  still-IsReady : {q r : Queue T} → IsReady q → IsValid r → limits r ≡ limits q → IsReady r
  still-IsReady v i k = record {
    valid = i;
    enqueue_limit =
        omega (arith, v.enqueue_limit, ap (λ l. l.slots) k, ap (λ l. l.enqueue_limit) k);
    dequeue_limit =
        omega (arith, v.dequeue_limit, ap (λ l. l.slots) k, ap (λ l. l.dequeue_limit) k);
  }

  -- A sequence of calls of either side on a valid queue, whose batch limits are at most its
  -- capacity and whose slices are shorter than 2 ^ 63, gives the answers that the bounded list of
  -- its items gives, errors included, and leaves the items that the list holds. The counts that
  -- batch calls report are not part of an answer here.
  pub run_refines_queue :
      (cs : List (Call T)) (q : Queue T)
      → IsReady q
      → AllInRange cs
      → ((run zeroed cs q).0, contents zeroed (run zeroed cs q).1)
        ≡ Spec.run (limits q) cs (contents zeroed q)
  unfolding run Spec.run
  run_refines_queue [] q v h = refl
  run_refines_queue (c ∷ cs) q v (h, hs) =
      let s = step-Refines v c h in
      let rest = run_refines_queue cs (step zeroed c q).1 (still-IsReady v s.valid s.kept) hs in
      let later = rest ∙ ap₂ (λ l xs. Spec.run l cs xs) s.kept (ap (λ p. p.1) s.answer) in
      ap₂ (λ a p. (a ∷ p.0, p.1)) (ap (λ p. p.0) s.answer) later
