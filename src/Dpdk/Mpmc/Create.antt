-- ===== src/Dpdk/Mpmc/Create.antt =====
-- ring/dpdk/mpmc.go: `NewMPMCQueue`.
use go_data_structures.Base.{
  ℕ, ◌+◌, ◌%◌, ◌^◌, ◌≤◌, ◌<◌, ◌≡◌, refl, arith, Bool, true, not, List, Option, none, some, sub_int,
}
use go_data_structures.Dpdk.Capacity.{IsCapacity, capacity_bounds}
use go_data_structures.Dpdk.Errors.{Error}
use go_data_structures.Dpdk.Shared.{check_capacity, check_max_batch}
use go_data_structures.Dpdk.Options
use go_data_structures.Dpdk.Options.{
  RingOption, multi, is_relaxed, resolve_head_tail_distance, Result, ok, failed, resolve_config,
  apply_all, default_config, check_config, first_error, or_error,
}
use go_data_structures.Dpdk.Checks.{check_capacity-IsCapacity, first_none, batch_range}
use go_data_structures.Dpdk.Spsc.Created.{AreInts, apply_all-IsIntConfig}
use go_data_structures.Dpdk.Mpmc.State.{Config, capacity}
use go_data_structures.Dpdk.Mpmc.Methods.{Method, request}
use go_data_structures.Dpdk.Mpmc.Requests.{IsAdmissible, request-IsAdmissible}

-- `mpmcConfig` without its slots.
pub record Settings : Type 0 where
  pub ordered : Config
  pub prod_htd_max : ℕ
  pub cons_htd_max : ℕ
  pub spins_before_yield : ℕ
  pub producer_relaxed : Bool
  pub consumer_relaxed : Bool

unfoldable pub settings : ℕ → Options.Config → Settings
unfolding resolve_head_tail_distance is_relaxed
settings count cfg = record {
  ordered = record {
    mask = sub_int count 1 % 2 ^ 32;
    max_enqueue_batch = cfg.max_enqueue_batch % 2 ^ 32;
    max_dequeue_batch = cfg.max_dequeue_batch % 2 ^ 32;
    clear_on_dequeue = not cfg.keep_dequeued;
    exact_batch_counts = cfg.exact_batch_counts;
  };
  prod_htd_max =
      resolve_head_tail_distance cfg.prod_mode count cfg.max_producer_head_tail_distance
        cfg.producer_head_tail_distance_set;
  cons_htd_max =
      resolve_head_tail_distance cfg.cons_mode count cfg.max_consumer_head_tail_distance
        cfg.consumer_head_tail_distance_set;
  spins_before_yield = cfg.spins_before_yield % 2 ^ 32;
  producer_relaxed = is_relaxed cfg.prod_mode;
  consumer_relaxed = is_relaxed cfg.cons_mode;
}

unfoldable pub build : ℕ → Result Options.Config → Result Settings
unfolding settings
build count (ok cfg) = ok (settings count cfg)
build count (failed e) = failed e

-- `NewMPMCQueue`
unfoldable pub new_queue : ℕ → List RingOption → Result Settings
unfolding build
new_queue count options = build count (resolve_config count multi multi true options)

-- What the calls of the queue rely on.
abbrev pub IsUsable : ℕ → Result Settings → Type 0
IsUsable count (failed e) = Unit
IsUsable count (ok st) =
    IsCapacity (st.ordered.mask + 1)
    × (capacity st.ordered ≡ count)
    × (0 < st.ordered.max_enqueue_batch)
    × (st.ordered.max_enqueue_batch ≤ capacity st.ordered)
    × (0 < st.ordered.max_dequeue_batch)
    × (st.ordered.max_dequeue_batch ≤ capacity st.ordered)

-- For a count and options that are `int`s, a queue that `NewMPMCQueue` returns has `count` slots, a
-- valid capacity, and batch limits from 1 to the capacity.
pub new_queue-IsUsable :
    (count : ℕ) (options : List RingOption)
    → count < 2 ^ 64
    → AreInts options
    → IsUsable count (new_queue count options)
unfolding new_queue resolve_config default_config
new_queue-IsUsable count options h hs = go checks refl
  where
    final : Options.Config
    final = apply_all options (default_config count multi multi)

    checks : Option Error
    checks = first_error (check_capacity count) (check_config count multi multi true final)

    go : (e : Option Error) → checks ≡ e → IsUsable count (build count (or_error e final))
    go (some x) e = tt
    go none e =
        let (e1, e2) = first_none (check_capacity count) _ e in
        let (e3, rest) = first_none (check_max_batch final.max_enqueue_batch count) _ e2 in
        let (e4, _) = first_none (check_max_batch final.max_dequeue_batch count) _ rest in
        let c = check_capacity-IsCapacity count h e1 in
        let i =
          apply_all-IsIntConfig options (default_config count multi multi) hs (h, h, omega arith) in
        let a = batch_range count (capacity_bounds c).1 final.max_enqueue_batch i.0 e3 in
        let b = batch_range count (capacity_bounds c).1 final.max_dequeue_batch i.1 e4 in
        let bounds = capacity_bounds c in
        let mask_lem : sub_int count 1 % 2 ^ 32 + 1 ≡ count = omega (arith, bounds) in
        (
          rw mask_lem c,
          omega (arith, bounds),
          omega (arith, bounds, a),
          omega (arith, bounds, a),
          omega (arith, bounds, b),
          omega (arith, bounds, b),
        )

-- For a count and options that are `int`s, a queue that `NewMPMCQueue` returns has `count` slots, a
-- valid capacity, and batch limits from 1 to the capacity; a method of it reports a wrong length
-- exactly when it is a bulk call of more than its limit, and else it reserves all of its slots or, as
-- a burst, up to the limit of them, at most a capacity, and a producer has an item for each.
pub new_queue_requests :
    {T : Type 0} (count : ℕ) (options : List RingOption) (st : Settings)
    → count < 2 ^ 64
    → AreInts options
    → new_queue count options ≡ ok st
    → IsUsable count (ok st) × ((m : Method T) → IsAdmissible st.ordered m (request st.ordered m))
new_queue_requests count options st h hs e =
    let u = rw e at (new_queue-IsUsable count options h hs) in
    (
      u,
      λ m.
          request-IsAdmissible st.ordered m (omega (arith, u)) (omega (arith, u))
            (omega (arith, u)),
    )
