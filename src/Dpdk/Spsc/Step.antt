-- ===== src/Dpdk/Spsc/Step.antt =====
-- The calls of one queue as steps with an answer, of either side.
use go_data_structures.Base.{ℕ, ◌+◌, ◌≤◌, ◌<◌, ◌^◌, ◌≡◌, List, [], ◌∷◌, Option, none, some, length}
use go_data_structures.Dpdk.Errors.{Error}
use go_data_structures.Dpdk.Spsc.Spec.{
  Call, enqueue, dequeue, enqueue_bulk, enqueue_burst, dequeue_bulk, dequeue_burst, reset, Answer,
  refusal,
}
use go_data_structures.Dpdk.Spsc.Defs
use go_data_structures.Dpdk.Spsc.Defs.{Queue, Side, capacity, bulk_result, bulk_items}
use go_data_structures.Dpdk.Spsc.Inv.{IsValid, contents, limits}

module _ {T : Type 0} where
  abbrev pub enqueue_answer : Option Error × Queue T → Answer T × Queue T
  enqueue_answer (none, r) = ((1, [], none), r)
  enqueue_answer (some e, r) = (refusal e, r)

  abbrev pub dequeue_answer : (T × Option Error) × Queue T → Answer T × Queue T
  dequeue_answer ((x, none), r) = ((0, x ∷ [], none), r)
  dequeue_answer ((x, some e), r) = (refusal e, r)

  abbrev pub bulk_answer : ℕ → (ℕ × Option Error) × Queue T → Answer T × Queue T
  bulk_answer n ((free, none), r) = ((n, [], none), r)
  bulk_answer n ((free, some e), r) = (refusal e, r)

module _ {T : Type 0} (zeroed : T) where
  -- A call of the queue: its answer without the counts, and the queue that it leaves.
  unfoldable pub step : Call T → Queue T → Answer T × Queue T
  step (enqueue x) q = enqueue_answer (Defs.enqueue x q)
  step dequeue q = dequeue_answer (Defs.dequeue zeroed q)
  step (enqueue_bulk items) q = bulk_answer (length items) (Defs.enqueue_bulk items q)
  step (enqueue_burst items) q =
      let ((moved, free), r) = Defs.enqueue_burst items q in ((moved, [], none), r)
  step (dequeue_bulk n) q =
      let ((xs, available, e), r) = Defs.dequeue_bulk zeroed n q in ((0, xs, e), r)
  step (dequeue_burst n) q =
      let ((xs, available), r) = Defs.dequeue_burst zeroed n q in ((0, xs, none), r)
  step reset q = ((0, [], none), Defs.reset zeroed q)

  unfoldable pub run : List (Call T) → Queue T → List (Answer T) × Queue T
  unfolding step
  run [] q = ([], q)
  run (c ∷ cs) q = let (a, r) = step c q in let (answers, s) = run cs r in (a ∷ answers, s)

module _ {T : Type 0} where
  -- A batch is no longer than the largest slice.
  abbrev pub InRange : Call T → Type 0
  InRange (enqueue x) = Unit
  InRange dequeue = Unit
  InRange (enqueue_bulk items) = length items < 2 ^ 63
  InRange (enqueue_burst items) = Unit
  InRange (dequeue_bulk n) = n < 2 ^ 63
  InRange (dequeue_burst n) = Unit
  InRange reset = Unit

  abbrev pub AllInRange : List (Call T) → Type 0
  AllInRange [] = Unit
  AllInRange (c ∷ cs) = InRange c × AllInRange cs

  -- A valid queue whose limits its constructor has checked.
  pub record IsReady (q : Queue T) : Type 0 where
    pub valid : IsValid q
    pub enqueue_limit : q.producer.max_batch ≤ q.mask + 1
    pub dequeue_limit : q.consumer.max_batch ≤ q.mask + 1

module _ {T : Type 0} (zeroed : T) where
  -- The answer and the contents are those of the bounded queue.
  pub record Refines (q : Queue T) (expected : Answer T × List T) (r : Answer T × Queue T)
      : Type 0 where
    pub valid : IsValid r.1
    pub kept : limits r.1 ≡ limits q
    pub answer : (r.0, contents zeroed r.1) ≡ expected
