-- ===== src/Dpdk/Mpmc/Tests.antt =====
-- Runs of a queue of four slots: goroutine 0 enqueues two items, and goroutine 1 dequeues one.
use go_data_structures.Base.{
  leb, min, get_or, ℕ, ◌+◌, ◌-◌, ◌%◌, ◌≤◌, ◌<◌, ◌≡◌, ◌≢◌, refl, List, [], ◌∷◌, true, false, arith,
  length, slice, blit, ◌==◌,
}
use go_data_structures.Dpdk.Capacity.{IsCapacity}
use go_data_structures.Dpdk.Copies.{copy_in}
use go_data_structures.Dpdk.Mpmc.Admission.{producer, consumer}
use go_data_structures.Dpdk.Mpmc.State.{
  Config, capacity, Request, calling, returned, word, lane, write_slots, advance,
}
use go_data_structures.Dpdk.Mpmc.System.{System, initial, act, call, Reach, start, acts, calls}
use go_data_structures.Dpdk.Mpmc.Slots.{slot, slots_written}
use go_data_structures.Dpdk.Mpmc.Exclusive.{held_slots_differ, lanes_in_order}
use go_data_structures.Dpdk.Mpmc.Progress.{some_call_publishes}
use go_data_structures.Dpdk.Mpmc.Delivery.{returned_items}
use go_data_structures.Dpdk.Mpmc.Methods.{
  dequeue_bulk, request, answer, count, free, is_full, is_empty,
}
use go_data_structures.Dpdk.Mpmc.Requests.{racing_observers_lem}
use go_data_structures.Dpdk.Mpmc.Room.{admitted, room}
use go_data_structures.Dpdk.Mpmc.Alone.{run, Returned, alone_returns}
use go_data_structures.Dpdk.Mpmc.Answers.{Answered, alone_answers}
use go_data_structures.Dpdk.Mpmc.Linearization.{FifoStep, pending, given_to, effect, act_is_fifo}

abbrev four : Config
four = record {
  mask = 3;
  max_enqueue_batch = 4;
  max_dequeue_batch = 4;
  clear_on_dequeue = true;
  exact_batch_counts = false;
}

four-IsCapacity : IsCapacity 4
four-IsCapacity = record { exponent = 2; bounded = omega arith; power = refl }

abbrev two_items : Request ℕ
two_items = record { requested = 2; fixed = true; exact = false; items = 10 ∷ 11 ∷ [] }

abbrev one_item : Request ℕ
one_item = record { requested = 1; fixed = false; exact = true; items = [] }

abbrev step : ℕ → System ℕ → System ℕ
step = act 0 four

abbrev enqueueing : System ℕ
enqueueing = step 0 (step 0 (call 0 producer two_items (initial 0 four)))

abbrev filling : System ℕ
filling = step 0 enqueueing

abbrev enqueued : System ℕ
enqueued = step 0 (step 0 filling)

enqueueing-Reach : Reach 0 four enqueueing
unfolding act call advance
enqueueing-Reach = acts 0 (acts 0 (calls 0 producer two_items start tt (omega arith)) tt) tt

filling-Reach : Reach 0 four filling
unfolding act call advance
filling-Reach = acts 0 enqueueing-Reach (omega arith, omega arith)

enqueued-Reach : Reach 0 four enqueued
unfolding act call advance
enqueued-Reach = acts 0 (acts 0 filling-Reach tt) tt

-- The enqueue, and then a dequeue that loads and caches the producers' position, up to its
-- compare-and-swap, and from there to its return.
abbrev reading : System ℕ
reading = step 1 (step 1 (step 1 (step 1 (step 1 (call 1 consumer one_item enqueued)))))

reading-Reach : Reach 0 four reading
unfolding act call advance
reading-Reach =
    acts 1
      (acts 1 (acts 1 (acts 1 (acts 1 (calls 1 consumer one_item enqueued-Reach tt tt) tt) tt) tt)
        tt)
      (omega arith, omega arith)

abbrev dequeued : System ℕ
dequeued = step 1 (step 1 reading)

dequeued-Reach : Reach 0 four dequeued
unfolding act call advance
dequeued-Reach = acts 1 (acts 1 reading-Reach tt) tt

-- Two goroutines hold slots: 0 of the positions 0 and 1, and 2 of the position 2.
abbrev another_item : Request ℕ
another_item = record { requested = 1; fixed = true; exact = false; items = 12 ∷ [] }

abbrev two_producers : System ℕ
two_producers = step 2 (step 2 (step 2 (call 2 producer another_item filling)))

two_producers-Reach : Reach 0 four two_producers
unfolding act call advance
two_producers-Reach =
    acts 2 (acts 2 (acts 2 (calls 2 producer another_item filling-Reach tt (omega arith)) tt) tt)
      (omega arith, omega arith)

held_slots_differ_example : 1 % 4 ≢ 2 % 4
unfolding act call advance
held_slots_differ_example =
    held_slots_differ 0 four four-IsCapacity two_producers-Reach 0 2 (λ e. absurd (cc e)) 1 2
      (omega arith, omega arith) (omega arith, omega arith)

lanes_in_order_example :
    (two_producers.mem.consumers.tail ≤ two_producers.mem.consumers.head)
    × (two_producers.mem.consumers.head ≤ two_producers.mem.producers.tail)
    × (two_producers.mem.producers.tail ≤ two_producers.mem.producers.head)
    × (two_producers.mem.producers.head ≤ two_producers.mem.consumers.tail + capacity four)
lanes_in_order_example = lanes_in_order 0 four four-IsCapacity two_producers-Reach

some_call_publishes_example :
    (i : ℕ) × ((lane producer two_producers.mem).tail
      < (lane producer (act 0 four i (act 0 four i two_producers)).mem).tail)
unfolding act call advance
some_call_publishes_example =
    some_call_publishes 0 four four-IsCapacity two_producers-Reach producer (omega arith)

returned_items_example :
    (0 < 1 → 0 + 1 ≤ length dequeued.mem.log) × (10 ∷ [] ≡ slice dequeued.mem.log 0 1)
unfolding act call advance copy_in blit
returned_items_example = returned_items 0 four four-IsCapacity dequeued-Reach 1 0 1 1 (10 ∷ []) refl

act_is_fifo_example :
    FifoStep
      (pending reading.mem)
      (given_to reading 1)
      (effect
        (reading.threads 1).role
        reading.mem
        (reading.threads 1).pc
        ((act 0 four 1 reading).threads 1).pc)
      (pending (act 0 four 1 reading).mem)
      (given_to (act 0 four 1 reading) 1)
    × ((j : ℕ) → j ≢ 1 → given_to (act 0 four 1 reading) j ≡ given_to reading j)
unfolding act call advance
act_is_fifo_example = act_is_fifo 0 four four-IsCapacity 1 reading-Reach tt

alone_returns_example :
    Returned 0 four consumer 0
      (admitted one_item (room four consumer enqueued.mem))
      (run 0 four 7 consumer (calling one_item) enqueued.mem)
unfolding act call advance
alone_returns_example =
    alone_returns 0 four four-IsCapacity consumer enqueued.mem one_item
      (omega arith, omega arith, omega arith) (omega arith, omega arith, omega arith) refl
      (omega arith) (omega arith)

-- A bulk dequeue of two items that starts after the enqueue.
abbrev two_wanted : Request ℕ
two_wanted = record { requested = 2; fixed = true; exact = false; items = [] }

abbrev waiting : System ℕ
waiting = call 1 consumer two_wanted enqueued

waiting-Reach : Reach 0 four waiting
unfolding act call
waiting-Reach = calls 1 consumer two_wanted enqueued-Reach tt tt

alone_answers_example :
    let (m', p') = run 0 four 7 consumer (calling two_wanted) waiting.mem in
    (k n : ℕ) × (out : List ℕ) × (p' ≡ returned 0 k n out)
    × Answered 0 four
        (dequeue_bulk 2)
        (room four consumer waiting.mem)
        (pending waiting.mem)
        (pending m')
        (answer 0 (dequeue_bulk 2) k n out)
unfolding act call advance request
alone_answers_example =
    alone_answers 0 four four-IsCapacity 1 (dequeue_bulk 2) two_wanted waiting-Reach refl refl refl
      (omega arith) (omega arith) (omega arith) (omega arith)

racing_observers_lem_example :
    (count four (word 0) (word dequeued.mem.producers.tail)
      ≡ min (dequeued.mem.producers.tail - 0) (capacity four))
    × (free four (word 0) (word dequeued.mem.producers.tail)
        ≡ capacity four - (dequeued.mem.producers.tail - 0))
    × (is_full four (word 0) (word dequeued.mem.producers.tail)
        ≡ leb (0 + capacity four) dequeued.mem.producers.tail)
    × (is_empty four (word 0) (word dequeued.mem.producers.tail)
        ≡ (dequeued.mem.producers.tail == 0))
racing_observers_lem_example =
    racing_observers_lem four 0 0 four-IsCapacity dequeued-Reach
      (unfold act call advance in omega arith) (unfold act call advance in omega arith)

-- Two items from the last slot on: the second goes to the front of the array.
slots_written_example :
    (length (write_slots {T = ℕ} four 7 (8 ∷ 9 ∷ []) (1 ∷ 2 ∷ 3 ∷ 4 ∷ [])) ≡ 4)
    × (slot {T = ℕ} 0 four (write_slots four 7 (8 ∷ 9 ∷ []) (1 ∷ 2 ∷ 3 ∷ 4 ∷ [])) 8
        ≡ get_or (8 ∷ 9 ∷ []) 1 0)
slots_written_example =
    slots_written 0 four four-IsCapacity (1 ∷ 2 ∷ 3 ∷ 4 ∷ []) refl 7 (8 ∷ 9 ∷ []) (omega arith) 8
      (omega arith) (omega arith)

-- The run's end.
dequeued_log : dequeued.mem.log ≡ 10 ∷ 11 ∷ []
unfolding act call advance
dequeued_log = refl

dequeued_entries : dequeued.mem.entries ≡ 0 ∷ 11 ∷ 0 ∷ 0 ∷ []
unfolding act call advance copy_in blit
dequeued_entries = refl
