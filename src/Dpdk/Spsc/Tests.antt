-- ===== src/Dpdk/Spsc/Tests.antt =====
-- Runs of a queue of four slots whose positions are about to wrap and whose caches lag.
use go_data_structures.Base.{
  ℕ, ◌+◌, ◌-◌, ◌^◌, ◌≡◌, refl, List, [], ◌∷◌, none, some, true, false, arith, length, ◌==◌,
}
use go_data_structures.Dpdk.Window.{window}
use go_data_structures.Dpdk.Errors.{full, empty, exceeds_capacity}
use go_data_structures.Dpdk.Options.{RingOption, with_max_batch, with_exact_batch_counts}
use go_data_structures.Dpdk.Spsc.Spec
use go_data_structures.Dpdk.Spsc.Spec.{
  Call, enqueue, dequeue, enqueue_bulk, enqueue_burst, dequeue_bulk, dequeue_burst, reset,
}
use go_data_structures.Dpdk.Spsc.Defs
use go_data_structures.Dpdk.Spsc.Defs.{
  Side, Queue, count, free, is_full, is_empty, enqueue_batch, dequeue_batch, enqueue_one,
  dequeue_one,
}
use go_data_structures.Dpdk.Spsc.Inv.{IsValid, contents, limits}
use go_data_structures.Dpdk.Spsc.Create.{new_queue}
use go_data_structures.Dpdk.Spsc.Created.{Creates, new_queue-Creates}
use go_data_structures.Dpdk.Spsc.Enqueue.{Enqueues, enqueue_batch-Enqueues}
use go_data_structures.Dpdk.Spsc.EnqueueOne.{enqueue_one_lem}
use go_data_structures.Dpdk.Spsc.Dequeue.{Dequeues, dequeue_batch-Dequeues}
use go_data_structures.Dpdk.Spsc.DequeueOne.{dequeue_one_lem}
use go_data_structures.Dpdk.Spsc.Singles.{Enqueued, Dequeued, enqueue_lem, dequeue_lem}
use go_data_structures.Dpdk.Spsc.Observers.{observers_lem}
use go_data_structures.Dpdk.Spsc.Step.{run, IsReady}
use go_data_structures.Dpdk.Spsc.Calls.{run_refines_queue}

-- The slots hold 7 at the last position before the wrap and 8 at the first one after it.
abbrev wrapped : Queue ℕ
wrapped = record {
  entries = 8 ∷ 0 ∷ 0 ∷ 7 ∷ [];
  mask = 3;
  clear_on_dequeue = true;
  producer = record {
    cursor = 1;
    cached = 2 ^ 32 - 3;
    published = 1;
    max_batch = 3;
    exact = false;
  };
  consumer = record {
    cursor = 2 ^ 32 - 1;
    cached = 2 ^ 32 - 1;
    published = 2 ^ 32 - 1;
    max_batch = 4;
    exact = false;
  };
}

wrapped-IsValid : IsValid wrapped
wrapped-IsValid = record {
  shape = record { exponent = 2; bounded = omega arith; power = refl };
  size = refl;
  producer_positions = omega arith;
  consumer_positions = omega arith;
  producer_cache = omega arith;
  consumer_cache = omega arith;
}

wrapped-IsReady : IsReady wrapped
wrapped-IsReady = record {
  valid = wrapped-IsValid;
  enqueue_limit = omega arith;
  dequeue_limit = omega arith;
}

wrapped-contents : contents 0 wrapped ≡ 7 ∷ 8 ∷ []
unfolding contents window
wrapped-contents = refl

-- Items of every kind of call, with a bulk that does not fit, one that is too long, and an empty
-- queue at the end.
abbrev calls : List (Call ℕ)
calls =
    enqueue_bulk (1 ∷ 2 ∷ 3 ∷ [])
    ∷ enqueue_burst (1 ∷ 2 ∷ 3 ∷ 4 ∷ [])
    ∷ enqueue 5
    ∷ dequeue_bulk 5
    ∷ dequeue
    ∷ dequeue_bulk 2
    ∷ dequeue_burst 4
    ∷ dequeue
    ∷ enqueue 6
    ∷ reset
    ∷ dequeue_burst 1
    ∷ []

spec_run_example :
    (Spec.run (limits wrapped) calls (7 ∷ 8 ∷ [])).0
    ≡ (0, [], some full)
      ∷ (2, [], none)
      ∷ (0, [], some full)
      ∷ (0, [], some exceeds_capacity)
      ∷ (0, 7 ∷ [], none)
      ∷ (0, 8 ∷ 1 ∷ [], none)
      ∷ (0, 2 ∷ [], none)
      ∷ (0, [], some empty)
      ∷ (1, [], none)
      ∷ (0, [], none)
      ∷ (0, [], none)
      ∷ []
unfolding Spec.run Spec.step Spec.put Spec.get
spec_run_example = refl

run_refines_queue_example :
    ((run 0 calls wrapped).0, contents 0 (run 0 calls wrapped).1)
    ≡ Spec.run (limits wrapped) calls (contents 0 wrapped)
run_refines_queue_example = run_refines_queue 0 calls wrapped wrapped-IsReady (omega arith)

enqueue_batch-Enqueues_example :
    Enqueues 0 wrapped (1 ∷ 2 ∷ 3 ∷ []) 2 (enqueue_batch (1 ∷ 2 ∷ 3 ∷ []) false wrapped)
enqueue_batch-Enqueues_example =
    enqueue_batch-Enqueues 0 wrapped-IsValid (1 ∷ 2 ∷ 3 ∷ []) false (omega arith)

dequeue_batch-Dequeues_example : Dequeues 0 wrapped 3 0 (dequeue_batch 0 3 true wrapped)
dequeue_batch-Dequeues_example = dequeue_batch-Dequeues 0 wrapped-IsValid 3 true (omega arith)

enqueue_lem_example : Enqueued 0 wrapped 9 (Defs.enqueue 9 wrapped)
enqueue_lem_example = enqueue_lem 0 wrapped-IsValid 9

dequeue_lem_example : Dequeued 0 wrapped (Defs.dequeue 0 wrapped)
dequeue_lem_example = dequeue_lem 0 wrapped-IsValid

enqueue_one_lem_example : enqueue_one 9 wrapped ≡ enqueue_batch (9 ∷ []) true wrapped
enqueue_one_lem_example = enqueue_one_lem 0 wrapped-IsValid 9 true

dequeue_one_lem_example : dequeue_one 0 wrapped ≡ dequeue_batch 0 1 false wrapped
dequeue_one_lem_example = dequeue_one_lem 0 wrapped-IsValid false

observers_lem_example :
    (count wrapped ≡ length (contents 0 wrapped))
    × (free wrapped + length (contents 0 wrapped) ≡ 4)
    × (is_full wrapped ≡ (length (contents 0 wrapped) == 4))
    × (is_empty wrapped ≡ (length (contents 0 wrapped) == 0))
observers_lem_example = observers_lem 0 wrapped-IsValid

abbrev options : List RingOption
options = with_max_batch 3 ∷ with_exact_batch_counts ∷ []

new_queue-Creates_example : Creates {T = ℕ} 0 8 options (new_queue 0 8 options)
new_queue-Creates_example = new_queue-Creates {T = ℕ} 0 8 options (omega arith) (omega arith)
