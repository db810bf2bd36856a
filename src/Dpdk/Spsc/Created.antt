-- ===== src/Dpdk/Spsc/Created.antt =====
-- The queue that `NewSPSCQueue` returns, and the arguments that it accepts.
use go_data_structures.Base.{
  ℕ, ◌+◌, ◌<◌, ◌^◌, ◌%◌, ◌≡◌, refl, sym, ◌∙◌, arith, true, Option, none, some, List, [], ◌∷◌,
  length-replicate, sub_int,
}
use go_data_structures.Dpdk.Capacity.{IsCapacity, capacity_bounds}
use go_data_structures.Dpdk.Errors.{Error}
use go_data_structures.Dpdk.Shared.{check_capacity}
use go_data_structures.Dpdk.Options.{
  single, Config, RingOption, with_relaxed_multi_prod_enqueue, with_relaxed_multi_cons_dequeue,
  with_max_enqueue_batch, with_max_dequeue_batch, with_max_batch, without_dequeue_clearing,
  with_exact_batch_counts, with_spins_before_yield, with_max_producer_head_tail_distance,
  with_max_consumer_head_tail_distance, apply, apply_all, default_config, check_config, first_error,
  Result, ok, failed, or_error, resolve_config,
}
use go_data_structures.Dpdk.Checks.{
  IsIntConfig, IsSerial, check_capacity-IsCapacity, check_capacity_accepts, check_config-IsSerial,
  check_config_accepts, first_none, first_none_of,
}
use go_data_structures.Dpdk.Window.{window}
use go_data_structures.Dpdk.Spsc.Defs.{Queue}
use go_data_structures.Dpdk.Spsc.Inv.{IsValid, contents}
use go_data_structures.Dpdk.Spsc.Create.{configured, build, new_queue}

-- The number of an option is a bit pattern of an `int`.
abbrev pub IsInt : RingOption → Type 0
IsInt with_relaxed_multi_prod_enqueue = Unit
IsInt with_relaxed_multi_cons_dequeue = Unit
IsInt (with_max_enqueue_batch n) = n < 2 ^ 64
IsInt (with_max_dequeue_batch n) = n < 2 ^ 64
IsInt (with_max_batch n) = n < 2 ^ 64
IsInt without_dequeue_clearing = Unit
IsInt with_exact_batch_counts = Unit
IsInt (with_spins_before_yield n) = n < 2 ^ 64
IsInt (with_max_producer_head_tail_distance d) = d < 2 ^ 64
IsInt (with_max_consumer_head_tail_distance d) = d < 2 ^ 64

abbrev pub AreInts : List RingOption → Type 0
AreInts [] = Unit
AreInts (o ∷ os) = IsInt o × AreInts os

apply-IsIntConfig :
    (o : RingOption) (cfg : Config) → IsInt o → IsIntConfig cfg → IsIntConfig (apply o cfg)
unfolding apply
apply-IsIntConfig with_relaxed_multi_prod_enqueue cfg h i = i
apply-IsIntConfig with_relaxed_multi_cons_dequeue cfg h i = i
apply-IsIntConfig (with_max_enqueue_batch n) cfg h i = (h, i.1, i.2)
apply-IsIntConfig (with_max_dequeue_batch n) cfg h i = (i.0, h, i.2)
apply-IsIntConfig (with_max_batch n) cfg h i = (h, h, i.2)
apply-IsIntConfig without_dequeue_clearing cfg h i = i
apply-IsIntConfig with_exact_batch_counts cfg h i = i
apply-IsIntConfig (with_spins_before_yield n) cfg h i = (i.0, i.1, h)
apply-IsIntConfig (with_max_producer_head_tail_distance d) cfg h i = i
apply-IsIntConfig (with_max_consumer_head_tail_distance d) cfg h i = i

pub apply_all-IsIntConfig :
    (os : List RingOption) (cfg : Config)
    → AreInts os
    → IsIntConfig cfg
    → IsIntConfig (apply_all os cfg)
unfolding apply_all
apply_all-IsIntConfig [] cfg h i = i
apply_all-IsIntConfig (o ∷ os) cfg (h, hs) i =
    apply_all-IsIntConfig os (apply o cfg) hs (apply-IsIntConfig o cfg h i)

-- The final configuration.
abbrev pub final : ℕ → List RingOption → Config
final count options = apply_all options (default_config count single single)

final-IsIntConfig :
    (count : ℕ) (options : List RingOption)
    → count < 2 ^ 64
    → AreInts options
    → IsIntConfig (final count options)
unfolding default_config
final-IsIntConfig count options h hs =
    apply_all-IsIntConfig options (default_config count single single) hs (h, h, omega arith)

module _ {T : Type 0} (zeroed : T) where
  -- An empty queue of `count` slots with the configured limits.
  pub record IsNew (count : ℕ) (cfg : Config) (q : Queue T) : Type 0 where
    pub valid : IsValid q
    pub slots : q.mask + 1 ≡ count
    pub empty_contents : contents zeroed q ≡ []
    pub enqueue_limit : q.producer.max_batch ≡ cfg.max_enqueue_batch
    pub dequeue_limit : q.consumer.max_batch ≡ cfg.max_dequeue_batch

  configured-IsNew :
      (count : ℕ) (cfg : Config)
      → IsCapacity count
      → IsSerial count cfg
      → IsNew count cfg (configured zeroed count cfg)
  unfolding configured contents window
  configured-IsNew count cfg c s =
      let mask_lem : sub_int count 1 % 2 ^ 32 + 1 ≡ count = omega (arith, capacity_bounds c) in
      record {
        valid = record {
          shape = rw mask_lem c;
          size = length-replicate count zeroed ∙ sym mask_lem;
          producer_positions = omega arith;
          consumer_positions = omega arith;
          producer_cache = omega arith;
          consumer_cache = omega arith;
        };
        slots = mask_lem;
        empty_contents = refl;
        enqueue_limit = omega (arith, capacity_bounds c, s.enqueue_limit);
        dequeue_limit = omega (arith, capacity_bounds c, s.dequeue_limit);
      }

some-none : {x : Error} → some x ≡ none → ⊥
some-none e = ground arith

-- What the constructor asks of its arguments.
abbrev pub IsAcceptable : ℕ → List RingOption → Type 0
IsAcceptable count options = IsCapacity count × IsSerial count (final count options)

or_error-none : {A : Type 0} (e : Option Error) (a : A) → e ≡ none → or_error e a ≡ ok a
or_error-none (some x) a h = ground arith
or_error-none none a h = refl

module _ (count : ℕ) (options : List RingOption) where
  abbrev checks : Option Error
  checks =
      first_error (check_capacity count)
        (check_config count single single true (final count options))

  checks_accept : IsAcceptable count options → checks ≡ none
  checks_accept (c, s) =
      first_none_of (check_capacity count) _ (check_capacity_accepts c)
        (check_config_accepts count (final count options) (capacity_bounds c).1 s)

  checks-IsAcceptable :
      count < 2 ^ 64 → AreInts options → checks ≡ none → IsAcceptable count options
  checks-IsAcceptable h hs e =
      let (e1, e2) = first_none _ _ e in
      let c = check_capacity-IsCapacity count h e1 in
      (
        c,
        check_config-IsSerial count (final count options) (capacity_bounds c).1
            (final-IsIntConfig count options h hs) e2,
      )

-- `NewSPSCQueue` returns an empty valid queue exactly when the arguments are acceptable, and an
-- error otherwise.
pub data Creates {T : Type 0} (zeroed : T) (count : ℕ) (options : List RingOption)
    : Result (Queue T) → Type 0 where
  created :
      {q : Queue T}
      → IsAcceptable count options
      → IsNew zeroed count (final count options) q
      → Creates zeroed count options (ok q)
  refused : {e : Error} → ¬ IsAcceptable count options → Creates zeroed count options (failed e)

-- For a count and options that are `int`s, `NewSPSCQueue` returns a valid empty queue with `count`
-- slots and the configured batch limits when the arguments are acceptable; when it returns an
-- error, they are not. Acceptable is a count that is a power of two of at most 2 ^ 30 and a final
-- configuration with both limits from 1 to the count, spins that are not set, serialized sides and
-- no distances.
pub new_queue-Creates :
    {T : Type 0} (zeroed : T) (count : ℕ) (options : List RingOption)
    → count < 2 ^ 64
    → AreInts options
    → Creates zeroed count options (new_queue zeroed count options)
unfolding new_queue resolve_config
new_queue-Creates zeroed count options h hs = go (checks count options) refl
  where
    go :
        (e : Option Error)
        → checks count options ≡ e
        → Creates zeroed count options (build zeroed count (or_error e (final count options)))
    go none e =
        let a = checks-IsAcceptable count options h hs e in
        unfold build in created a (configured-IsNew zeroed count (final count options) a.0 a.1)
    go (some x) e = unfold build in refused (λ a. some-none (sym e ∙ checks_accept count options a))
