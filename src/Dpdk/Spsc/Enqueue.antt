-- ===== src/Dpdk/Spsc/Enqueue.antt =====
-- The producer's calls: how many items they take, what they report, and that stale caches only make
-- the reported count too low.
use go_data_structures.Base.{
  ℕ, ◌+◌, ◌-◌, ◌%◌, ◌^◌, ◌≤◌, ◌<◌, ◌≡◌, ◌≢◌, ◌⊎◌, refl, sym, ap, ◌∙◌, List, ◌++◌, arith, length,
  Bool, true, false, min, take, length-take, ltb, if◌then◌else◌, Bool-cases, inl, inr,
}
use mathlib.Core.List.{append-nil}
use native.Mathlib.Decide.{ℕ_discrete}
use go_data_structures.Dpdk.Capacity.{capacity_bounds}
use go_data_structures.Dpdk.Spsc.Defs.{
  Queue, free_slots, load_consumer, put_items, must_load, enqueue_admitted, enqueue_batch,
}
use go_data_structures.Dpdk.Spsc.Inv.{IsValid, used, seen_used, contents, limits, capacity_lem}
use go_data_structures.Dpdk.Spsc.Put.{put_items-IsValid, contents-put_items}

-- The free slots of a queue.
abbrev pub room : {T : Type 0} → Queue T → ℕ
room q = q.mask + 1 - used q

-- How many of `n` items a batch call moves: all or none of a bulk, what fits of a burst.
abbrev pub admitted : Bool → ℕ → ℕ → ℕ
admitted true n space = if ltb space n then 0 else n
admitted false n space = min n space

pub put_items-limits :
    {T : Type 0} (items : List T) (q : Queue T) → limits (put_items items q) ≡ limits q
unfolding put_items
put_items-limits items q = refl

pub admitted-le :
    (fixed : Bool) (n space : ℕ) → (admitted fixed n space ≤ n) × (admitted fixed n space ≤ space)
admitted-le true n space = ground arith
admitted-le false n space = omega arith

module _ {T : Type 0} (zeroed : T) {q : Queue T} (v : IsValid q) where
  pub load_consumer-IsValid : IsValid (load_consumer q)
  load_consumer-IsValid = record {
    shape = v.shape;
    size = v.size;
    producer_positions = omega arith;
    consumer_positions = v.consumer_positions;
    producer_cache = omega (arith, capacity_bounds v.shape);
    consumer_cache = v.consumer_cache;
  }

  -- What the producer knows to be free: no more than is.
  pub free_slots_lem : (free_slots q ≡ q.mask + 1 - seen_used q) × (free_slots q ≤ room q)
  free_slots_lem = omega (arith, capacity_bounds v.shape, capacity_lem v)

  pub free_slots_fresh : free_slots (load_consumer q) ≡ room q
  free_slots_fresh = omega (arith, capacity_bounds v.shape, capacity_lem v)

  admitted_none :
      (items : List T) (n : ℕ) (fixed : Bool)
      → admitted fixed n (free_slots q) ≡ 0
      → enqueue_admitted items n fixed q ≡ ((0, free_slots q), q)
  unfolding enqueue_admitted
  admitted_none items n true e = ground (arith, free_slots_lem, capacity_lem v)
  admitted_none items n false e = ground (arith, free_slots_lem, capacity_lem v)

  admitted_some :
      (items : List T) (n : ℕ) (fixed : Bool)
      → admitted fixed n (free_slots q) ≢ 0
      → let m = admitted fixed n (free_slots q) in
        enqueue_admitted items n fixed q ≡ ((m, free_slots q - m), put_items (take m items) q)
  unfolding enqueue_admitted
  admitted_some items n true e = ground (arith, free_slots_lem, capacity_lem v)
  admitted_some items n false e = ground (arith, free_slots_lem, capacity_lem v)

  -- The end of a batch call moves what the known free slots admit.
  pub enqueue_admitted_lem :
      (items : List T) (fixed : Bool)
      → let m = admitted fixed (length items) (free_slots q) in
        let r = enqueue_admitted items (length items) fixed q in
        (r.0 ≡ (m, free_slots q - m))
        × IsValid r.1
        × (contents zeroed r.1 ≡ contents zeroed q ++ take m items)
        × (limits r.1 ≡ limits q)
  enqueue_admitted_lem items fixed =
      elim (ℕ_discrete (admitted fixed (length items) (free_slots q)) 0) [
        | yes e ↦
            rw (admitted_none items (length items) fixed e, e)
              (ground arith, v, sym (append-nil (contents zeroed q)), refl)
        | no e ↦
            let m = admitted fixed (length items) (free_slots q) in
            let few : length (take m items) ≡ m =
              omega (arith, length-take m items, admitted-le fixed (length items) (free_slots q)) in
            let fits : seen_used q + length (take m items) ≤ q.mask + 1 =
              omega (arith, few, admitted-le fixed (length items) (free_slots q), free_slots_lem) in
            rw (admitted_some items (length items) fixed e) (
              refl,
              put_items-IsValid zeroed v (take m items) fits,
              contents-put_items zeroed v (take m items) fits,
              put_items-limits (take m items) q,
            )
      ]

-- What a batch of the producer does: it moves `m` of the items behind those that the queue holds
-- and reports how many, and free slots that are never more than there are. That count is the
-- actual one unless the whole batch was moved by what the cache admits.
pub record Enqueues {T : Type 0} (zeroed : T) (q : Queue T) (items : List T) (m : ℕ)
    (r : (ℕ × ℕ) × Queue T) : Type 0 where
  pub moved : r.0.0 ≡ m
  pub valid : IsValid r.1
  pub held : contents zeroed r.1 ≡ contents zeroed q ++ take m items
  pub kept : limits r.1 ≡ limits q
  pub under : r.0.1 ≤ room q - m
  pub actual : (r.0.1 ≡ room q - m) ⊎ ((m ≡ length items) × (q.producer.exact ≡ false))

module _ {T : Type 0} (zeroed : T) {q : Queue T} (v : IsValid q) where
  -- The end of the call after a load of the consumer's position.
  loaded-Enqueues :
      (items : List T) (fixed : Bool)
      → Enqueues zeroed q items
          (admitted fixed (length items) (room q))
          (enqueue_admitted items (length items) fixed (load_consumer q))
  unfolding contents
  loaded-Enqueues items fixed =
      let (count, valid, held, kept) =
        enqueue_admitted_lem zeroed (load_consumer-IsValid zeroed v) items fixed in
      let same = free_slots_fresh zeroed v in
      record {
        moved = ap (λ p. p.0) count ∙ ap (admitted fixed (length items)) same;
        valid = valid;
        held =
            held ∙ ap (λ m. contents zeroed q ++ take (admitted fixed (length items) m) items) same;
        kept = kept;
        under = omega (arith, left count);
        actual = inl (left count);
      }
    where
      left :
          {p : ℕ × ℕ}
          → p ≡ (
            admitted fixed (length items) (free_slots (load_consumer q)),
            free_slots (load_consumer q)
                - admitted fixed (length items) (free_slots (load_consumer q)),
          )
          → p.1 ≡ room q - admitted fixed (length items) (room q)
      left e =
          ap (λ p. p.1) e
          ∙ ap (λ s. s - admitted fixed (length items) s) (free_slots_fresh zeroed v)

  admitted_all : (fixed : Bool) (n space : ℕ) → n ≤ space → admitted fixed n space ≡ n
  admitted_all true n space h = ground arith
  admitted_all false n space h = omega arith

  -- The end of the call on what the cache admits.
  cached-Enqueues :
      (items : List T) (fixed : Bool)
      → length items ≤ free_slots q
      → q.producer.exact ≡ false
      → Enqueues zeroed q items
          (admitted fixed (length items) (room q))
          (enqueue_admitted items (length items) fixed q)
  cached-Enqueues items fixed h x =
      let (count, valid, held, kept) = enqueue_admitted_lem zeroed v items fixed in
      let (_, low) = free_slots_lem zeroed v in
      let cached = admitted_all fixed (length items) (free_slots q) h in
      let true_all = admitted_all fixed (length items) (room q) (omega arith) in
      record {
        moved = ap (λ p. p.0) count ∙ cached ∙ sym true_all;
        valid = valid;
        held = held ∙ ap (λ m. contents zeroed q ++ take m items) (cached ∙ sym true_all);
        kept = kept;
        under = omega (arith, ap (λ p. p.1) count, cached, true_all);
        actual = inr (true_all, x);
      }

  -- A batch of fewer than 2 ^ 32 items on a valid queue puts `admitted` of them behind those held,
  -- whatever the producer's cache holds: a bulk all of them if they fit and else none, a burst those
  -- that fit. It reports that number, keeps the queue valid and its configuration as it was, and
  -- reports free slots that are no more than are left, and exactly those unless the whole batch
  -- was moved and exact counts are off.
  pub enqueue_batch-Enqueues :
      (items : List T) (fixed : Bool)
      → length items < 2 ^ 32
      → Enqueues zeroed q items
          (admitted fixed (length items) (room q))
          (enqueue_batch items fixed q)
  unfolding enqueue_batch
  enqueue_batch-Enqueues items fixed h =
      let small : length items % 2 ^ 32 ≡ length items = omega arith in
      elim (Bool-cases (must_load (length items) q)) [
        | inl e ↦ rw (small, e) (loaded-Enqueues items fixed)
        | inr e ↦ rw (small, e) (cached-Enqueues items fixed (ground arith) (ground arith))
      ]
