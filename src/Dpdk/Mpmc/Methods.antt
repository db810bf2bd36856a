-- ===== src/Dpdk/Mpmc/Methods.antt =====
-- ring/dpdk/mpmc.go: what the public methods put around a reservation, and the observers.
use go_data_structures.Base.{
  ℕ, ◌-◌, Bool, true, false, ◌||◌, List, [], ◌∷◌, length, get_or, min, ltb, ◌==◌, if◌then◌else◌,
  Option, none, some, sub_u32,
}
use go_data_structures.Dpdk.Errors.{Error, full, empty}
use go_data_structures.Dpdk.Shared.{batch_length_error}
use go_data_structures.Dpdk.Mpmc.Admission.{Role, producer, consumer, free_slots, filled_slots}
use go_data_structures.Dpdk.Mpmc.State.{Config, capacity, Request}

pub data Method (T : Type 0) : Type 0 where
  enqueue : T → Method T
  dequeue : Method T
  enqueue_bulk enqueue_burst : List T → Method T
  -- with the length of the destination
  dequeue_bulk dequeue_burst : ℕ → Method T

-- What a method returns. The items are those that it writes to the front of the destination.
pub data Answer (T : Type 0) : Type 0 where
  enqueued : Option Error → Answer T
  dequeued : T → Option Error → Answer T
  bulk_enqueued : (free : ℕ) → Option Error → Answer T
  burst_enqueued : (count free : ℕ) → Answer T
  bulk_dequeued : List T → (available : ℕ) → Option Error → Answer T
  burst_dequeued : List T → (count available : ℕ) → Answer T

module _ {T : Type 0} where
  abbrev pub role : Method T → Role
  role (enqueue x) = producer
  role dequeue = consumer
  role (enqueue_bulk xs) = producer
  role (enqueue_burst xs) = producer
  role (dequeue_bulk n) = consumer
  role (dequeue_burst n) = consumer

  -- The reservation that the method asks for, unless the length of the batch is an error.
  unfoldable pub request : Config → Method T → Option (Request T)
  request cfg (enqueue x) =
      some (record { requested = 1; fixed = true; exact = false; items = x ∷ [] })
  request cfg dequeue = some (record { requested = 1; fixed = true; exact = false; items = [] })
  request cfg (enqueue_bulk xs) =
      if ltb (capacity cfg) (length xs) || ltb cfg.max_enqueue_batch (length xs)
      then none
      else some (record {
        requested = length xs;
        fixed = true;
        exact = cfg.exact_batch_counts;
        items = xs;
      })
  request cfg (enqueue_burst xs) = some (record {
    requested = min (length xs) cfg.max_enqueue_batch;
    fixed = false;
    exact = cfg.exact_batch_counts;
    items = xs;
  })
  request cfg (dequeue_bulk n) =
      if ltb (capacity cfg) n || ltb cfg.max_dequeue_batch n
      then none
      else some (record { requested = n; fixed = true; exact = cfg.exact_batch_counts; items = [] })
  request cfg (dequeue_burst n) = some (record {
    requested = min n cfg.max_dequeue_batch;
    fixed = false;
    exact = cfg.exact_batch_counts;
    items = [];
  })

  -- The answer to a batch of a wrong length, from the words of the side's head and of the other
  -- side's publication.
  unfoldable pub length_answer : Config → Method T → (head published : ℕ) → Option (Answer T)
  unfolding free_slots filled_slots
  length_answer cfg (enqueue_bulk xs) head published = some (
      bulk_enqueued (min (free_slots (capacity cfg) published head) (capacity cfg))
        (some (batch_length_error (length xs) (capacity cfg))))
  length_answer cfg (dequeue_bulk n) head published = some (
      bulk_dequeued [] (min (filled_slots (capacity cfg) published head) (capacity cfg))
        (some (batch_length_error n (capacity cfg))))
  length_answer cfg m head published = none

  -- The answer from the reservation's result and the items that were read.
  unfoldable pub answer : T → Method T → (count remaining : ℕ) → List T → Answer T
  answer zeroed (enqueue x) k n out = enqueued (if k == 0 then some full else none)
  answer zeroed dequeue k n out =
      if k == 0 then dequeued zeroed (some empty) else dequeued (get_or out 0 zeroed) none
  answer zeroed (enqueue_bulk xs) k n out =
      bulk_enqueued n (if k == 0 then (if length xs == 0 then none else some full) else none)
  answer zeroed (enqueue_burst xs) k n out = burst_enqueued k n
  answer zeroed (dequeue_bulk d) k n out =
      if k == 0
      then bulk_dequeued [] n (if d == 0 then none else some empty)
      else bulk_dequeued out n none
  answer zeroed (dequeue_burst d) k n out =
      if k == 0 then burst_dequeued [] 0 n else burst_dequeued out k n

-- `Count`, from the words of the consumers' and then of the producers' publication.
unfoldable pub count : Config → (consumed produced : ℕ) → ℕ
count cfg consumed produced = min (sub_u32 produced consumed) (capacity cfg)

unfoldable pub free : Config → (consumed produced : ℕ) → ℕ
unfolding count
free cfg consumed produced = capacity cfg - count cfg consumed produced

unfoldable pub is_full : Config → (consumed produced : ℕ) → Bool
unfolding count
is_full cfg consumed produced = count cfg consumed produced == capacity cfg

unfoldable pub is_empty : Config → (consumed produced : ℕ) → Bool
unfolding count
is_empty cfg consumed produced = count cfg consumed produced == 0
