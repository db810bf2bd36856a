-- ===== src/Dpdk/Spsc/Dequeue.antt =====
-- The consumer's calls: which items they return, what they report, and that stale caches only make
-- the reported count too low.
use go_data_structures.Base.{
  ℕ, ◌-◌, ◌%◌, ◌^◌, ◌≤◌, ◌<◌, ◌≡◌, ◌≢◌, ◌⊎◌, refl, sym, ap, ◌∙◌, List, [], ◌++◌, arith, length,
  Bool, true, false, Bool-cases, inl, inr,
}
use native.Mathlib.Decide.{ℕ_discrete}
use go_data_structures.Dpdk.Spsc.Defs.{
  Queue, filled_slots, load_producer, take_items, must_reload, dequeue_admitted, dequeue_batch,
}
use go_data_structures.Dpdk.Spsc.Inv.{IsValid, used, used-le, contents, limits, capacity_lem}
use go_data_structures.Dpdk.Spsc.Enqueue.{admitted, admitted-le}
use go_data_structures.Dpdk.Spsc.Take.{take_items-IsValid, contents-take_items, length-take_items}

pub take_items-limits :
    {T : Type 0} (zeroed : T) (n : ℕ) (q : Queue T) → limits (take_items zeroed n q).1 ≡ limits q
unfolding take_items
take_items-limits zeroed n q = refl

-- What a call of the consumer that returns `m` items does: the items and those that it leaves are
-- the ones that the queue held, in that order, and the count it reports is never more than there
-- are. That count is the actual one unless the cache knew of all the items asked for.
pub record Dequeues {T : Type 0} (zeroed : T) (q : Queue T) (n m : ℕ) (r : (List T × ℕ) × Queue T)
    : Type 0 where
  pub moved : length r.0.0 ≡ m
  pub valid : IsValid r.1
  pub held : contents zeroed q ≡ r.0.0 ++ contents zeroed r.1
  pub kept : limits r.1 ≡ limits q
  pub under : r.0.1 ≤ used q - m
  pub actual : (r.0.1 ≡ used q - m) ⊎ ((m ≡ n) × (q.consumer.exact ≡ false))

module _ {T : Type 0} (zeroed : T) {q : Queue T} (v : IsValid q) where
  pub load_producer-IsValid : IsValid (load_producer q)
  load_producer-IsValid = record {
    shape = v.shape;
    size = v.size;
    producer_positions = v.producer_positions;
    consumer_positions = omega arith;
    producer_cache = v.producer_cache;
    consumer_cache = omega arith;
  }

  pub filled_slots_fresh : filled_slots (load_producer q) ≡ used q
  filled_slots_fresh = omega arith

  admitted_none :
      (n : ℕ) (fixed : Bool)
      → admitted fixed n (filled_slots q) ≡ 0
      → dequeue_admitted zeroed n fixed q ≡ (([], filled_slots q), q)
  unfolding dequeue_admitted
  admitted_none n true e = ground (arith, capacity_lem v, used-le v)
  admitted_none n false e = ground (arith, capacity_lem v, used-le v)

  admitted_some :
      (n : ℕ) (fixed : Bool)
      → admitted fixed n (filled_slots q) ≢ 0
      → let m = admitted fixed n (filled_slots q) in
        dequeue_admitted zeroed n fixed q
        ≡ (((take_items zeroed m q).0, filled_slots q - m), (take_items zeroed m q).1)
  unfolding dequeue_admitted
  admitted_some n true e = ground (arith, capacity_lem v, used-le v)
  admitted_some n false e = ground (arith, capacity_lem v, used-le v)

  -- The end of a batch call returns what the known items admit.
  pub dequeue_admitted_lem :
      (n : ℕ) (fixed : Bool)
      → let m = admitted fixed n (filled_slots q) in
        let r = dequeue_admitted zeroed n fixed q in
        (length r.0.0 ≡ m)
        × (r.0.1 ≡ filled_slots q - m)
        × IsValid r.1
        × (contents zeroed q ≡ r.0.0 ++ contents zeroed r.1)
        × (limits r.1 ≡ limits q)
  dequeue_admitted_lem n fixed = elim (ℕ_discrete (admitted fixed n (filled_slots q)) 0) [
    | yes e ↦ rw (admitted_none n fixed e, e) (refl, omega arith, v, refl, refl)
    | no e ↦
        let m = admitted fixed n (filled_slots q) in
        let (_, fits) = admitted-le fixed n (filled_slots q) in
        rw (admitted_some n fixed e) (
          length-take_items zeroed v m fits,
          refl,
          take_items-IsValid zeroed v m fits,
          contents-take_items zeroed v m fits,
          take_items-limits zeroed m q,
        )
  ]

module _ {T : Type 0} (zeroed : T) {q : Queue T} (v : IsValid q) where
  -- The end of the call after a load of the producer's position.
  loaded-Dequeues :
      (n : ℕ) (fixed : Bool)
      → Dequeues zeroed q n
          (admitted fixed n (used q))
          (dequeue_admitted zeroed n fixed (load_producer q))
  unfolding contents
  loaded-Dequeues n fixed =
      let (count, rest, valid, held, kept) =
        dequeue_admitted_lem zeroed (load_producer-IsValid zeroed v) n fixed in
      let same = filled_slots_fresh zeroed v in
      let left = rest ∙ ap (λ s. s - admitted fixed n s) same in
      record {
        moved = count ∙ ap (admitted fixed n) same;
        valid = valid;
        held = held;
        kept = kept;
        under = omega (arith, left);
        actual = inl left;
      }

  admitted_all : (fixed : Bool) (n space : ℕ) → n ≤ space → admitted fixed n space ≡ n
  admitted_all true n space h = ground arith
  admitted_all false n space h = omega arith

  -- The end of the call on what the cache knows of.
  cached-Dequeues :
      (n : ℕ) (fixed : Bool)
      → n ≤ filled_slots q
      → q.consumer.exact ≡ false
      → Dequeues zeroed q n (admitted fixed n (used q)) (dequeue_admitted zeroed n fixed q)
  cached-Dequeues n fixed h x =
      let (count, rest, valid, held, kept) = dequeue_admitted_lem zeroed v n fixed in
      let cached = admitted_all fixed n (filled_slots q) h in
      let true_all = admitted_all fixed n (used q) (omega arith) in
      record {
        moved = count ∙ cached ∙ sym true_all;
        valid = valid;
        held = held;
        kept = kept;
        under = omega (arith, rest, cached, true_all);
        actual = inr (true_all, x);
      }

  -- A batch into fewer than 2 ^ 32 elements on a valid queue returns `admitted` of the items held,
  -- oldest first, whatever the consumer's cache holds: a bulk all that are asked for if they are
  -- there and else none, a burst those that are there. The others stay, the queue is valid and
  -- configured as it was, and the reported count is no more than is left, and exactly that unless
  -- all items asked for were returned and exact counts are off.
  pub dequeue_batch-Dequeues :
      (n : ℕ) (fixed : Bool)
      → n < 2 ^ 32
      → Dequeues zeroed q n (admitted fixed n (used q)) (dequeue_batch zeroed n fixed q)
  unfolding dequeue_batch
  dequeue_batch-Dequeues n fixed h =
      let small : n % 2 ^ 32 ≡ n = omega arith in
      elim (Bool-cases (must_reload n q)) [
        | inl e ↦ rw (small, e) (loaded-Dequeues n fixed)
        | inr e ↦ rw (small, e) (cached-Dequeues n fixed (ground arith) (ground arith))
      ]
