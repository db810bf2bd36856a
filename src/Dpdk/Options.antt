-- ===== src/Dpdk/Options.antt =====
-- ring/dpdk/options.go: the options of the constructors, and the checks of the final values.
-- Numbers that are `int` in the source are `int` bit patterns. The texts that the errors wrap are
-- left out: an error is the sentinel that `errors.Is` finds.
use go_data_structures.Base.{
  ℕ, ◌-◌, ◌/◌, ◌%◌, ◌^◌, Bool, true, false, ◌&&◌, not, Option, none, some, List, [], ◌∷◌, ltb,
  if◌then◌else◌, lt_int, is_negative,
}
use go_data_structures.Dpdk.Errors.{
  Error, invalid_spins, invalid_distance, distance_requires_relaxed, unsupported_option,
}
use go_data_structures.Dpdk.Shared.{check_capacity, check_max_batch}

-- `syncMode`
pub data SyncMode : Type 0 where
  single multi relaxed : SyncMode

unfoldable pub is_single : SyncMode → Bool
is_single single = true
is_single multi = false
is_single relaxed = false

unfoldable pub is_relaxed : SyncMode → Bool
is_relaxed single = false
is_relaxed multi = false
is_relaxed relaxed = true

-- `config`
pub record Config : Type 0 where
  pub prod_mode : SyncMode
  pub cons_mode : SyncMode
  pub max_enqueue_batch : ℕ
  pub max_dequeue_batch : ℕ
  pub keep_dequeued : Bool
  pub exact_batch_counts : Bool
  pub spins_before_yield : ℕ
  pub spins_before_yield_set : Bool
  pub max_producer_head_tail_distance : ℕ
  pub max_consumer_head_tail_distance : ℕ
  pub producer_head_tail_distance_set : Bool
  pub consumer_head_tail_distance_set : Bool

-- The functions that return an `Option`.
pub data RingOption : Type 0 where
  with_relaxed_multi_prod_enqueue : RingOption
  with_relaxed_multi_cons_dequeue : RingOption
  with_max_enqueue_batch : ℕ → RingOption
  with_max_dequeue_batch : ℕ → RingOption
  with_max_batch : ℕ → RingOption
  without_dequeue_clearing : RingOption
  with_exact_batch_counts : RingOption
  with_spins_before_yield : ℕ → RingOption
  with_max_producer_head_tail_distance : ℕ → RingOption
  with_max_consumer_head_tail_distance : ℕ → RingOption

-- `option(&cfg)`
unfoldable pub apply : RingOption → Config → Config
apply with_relaxed_multi_prod_enqueue cfg = record cfg { prod_mode = relaxed }
apply with_relaxed_multi_cons_dequeue cfg = record cfg { cons_mode = relaxed }
apply (with_max_enqueue_batch n) cfg = record cfg { max_enqueue_batch = n }
apply (with_max_dequeue_batch n) cfg = record cfg { max_dequeue_batch = n }
apply (with_max_batch n) cfg = record cfg { max_enqueue_batch = n; max_dequeue_batch = n }
apply without_dequeue_clearing cfg = record cfg { keep_dequeued = true }
apply with_exact_batch_counts cfg = record cfg { exact_batch_counts = true }
apply (with_spins_before_yield n) cfg = record cfg {
  spins_before_yield = n;
  spins_before_yield_set = true;
}
apply (with_max_producer_head_tail_distance d) cfg = record cfg {
  max_producer_head_tail_distance = d;
  producer_head_tail_distance_set = true;
}
apply (with_max_consumer_head_tail_distance d) cfg = record cfg {
  max_consumer_head_tail_distance = d;
  consumer_head_tail_distance_set = true;
}

-- `for _, option := range options`
unfoldable pub apply_all : List RingOption → Config → Config
unfolding apply
apply_all [] cfg = cfg
apply_all (option ∷ options) cfg = apply_all options (apply option cfg)

-- `defaultConfig`
unfoldable pub default_config : ℕ → SyncMode → SyncMode → Config
default_config count producer_mode consumer_mode = record {
  prod_mode = producer_mode;
  cons_mode = consumer_mode;
  max_enqueue_batch = count;
  max_dequeue_batch = count;
  keep_dequeued = false;
  exact_batch_counts = false;
  spins_before_yield = 8192;
  spins_before_yield_set = false;
  max_producer_head_tail_distance = 0;
  max_consumer_head_tail_distance = 0;
  producer_head_tail_distance_set = false;
  consumer_head_tail_distance_set = false;
}

-- `checkSpinsBeforeYield`
unfoldable pub check_spins_before_yield : ℕ → Option Error
check_spins_before_yield spins =
    if not (is_negative spins) && not (lt_int (2 ^ 31 - 1) spins) then none else some invalid_spins

-- `checkTopologyMode`
unfoldable pub check_topology_mode : SyncMode → SyncMode → Option Error
unfolding is_single
check_topology_mode mode initial =
    let compatible = (if is_single initial then is_single mode else not (is_single mode)) in
    if compatible then none else some unsupported_option

-- `checkHeadTailDistanceNumber`
unfoldable pub check_head_tail_distance_number : ℕ → Option Error
check_head_tail_distance_number distance =
    if is_negative distance
    then some invalid_distance
    else if ltb (2 ^ 32 - 1) distance
    then some invalid_distance
    else none

-- The end of `checkHeadTailDistance`.
unfoldable pub distance_error : Option Error → SyncMode → Bool → Option Error
unfolding is_relaxed
distance_error (some e) mode serialized = some e
distance_error none mode serialized =
    if serialized
    then some unsupported_option
    else if not (is_relaxed mode)
    then some distance_requires_relaxed
    else none

-- `checkHeadTailDistance`
unfoldable pub check_head_tail_distance : ℕ → Bool → SyncMode → Bool → Option Error
unfolding distance_error check_head_tail_distance_number
check_head_tail_distance distance explicit mode serialized =
    if not explicit
    then none
    else distance_error (check_head_tail_distance_number distance) mode serialized

-- `resolveHeadTailDistance`
unfoldable pub resolve_head_tail_distance : SyncMode → ℕ → ℕ → Bool → ℕ
unfolding is_relaxed
resolve_head_tail_distance mode count distance explicit =
    if not (is_relaxed mode) then 0 else if explicit then distance % 2 ^ 32 else count / 8 % 2 ^ 32

-- `if err := ...; err != nil { return err }`
abbrev pub first_error : Option Error → Option Error → Option Error
first_error (some e) later = some e
first_error none later = later

-- The checks of `resolveConfig` under `fixedTopology`.
unfoldable pub check_topology : SyncMode → SyncMode → Config → Option Error
unfolding check_topology_mode is_single
check_topology producer_mode consumer_mode cfg =
    first_error (check_topology_mode cfg.prod_mode producer_mode) (
      first_error (check_topology_mode cfg.cons_mode consumer_mode) (
        if is_single producer_mode && is_single consumer_mode && cfg.spins_before_yield_set
        then some unsupported_option
        else none))

-- The checks of `resolveConfig` on the final values, in its order.
unfoldable pub check_config : ℕ → SyncMode → SyncMode → Bool → Config → Option Error
unfolding is_single
check_config count producer_mode consumer_mode fixed_topology cfg =
    first_error (check_max_batch cfg.max_enqueue_batch count) (
      first_error (check_max_batch cfg.max_dequeue_batch count) (
        first_error (check_spins_before_yield cfg.spins_before_yield) (
          first_error
            (if fixed_topology then check_topology producer_mode consumer_mode cfg else none)
            (first_error
              (check_head_tail_distance cfg.max_producer_head_tail_distance
                cfg.producer_head_tail_distance_set cfg.prod_mode
                (fixed_topology && is_single producer_mode))
              (check_head_tail_distance cfg.max_consumer_head_tail_distance
                cfg.consumer_head_tail_distance_set cfg.cons_mode
                (fixed_topology && is_single consumer_mode))))))

-- A value or an error.
pub data Result (A : Type 0) : Type 0 where
  ok : A → Result A
  failed : Error → Result A

abbrev pub or_error : {A : Type 0} → Option Error → A → Result A
or_error (some e) a = failed e
or_error none a = ok a

-- `resolveConfig`
unfoldable pub resolve_config : ℕ → SyncMode → SyncMode → Bool → List RingOption → Result Config
unfolding check_config
resolve_config count producer_mode consumer_mode fixed_topology options =
    let cfg = apply_all options (default_config count producer_mode consumer_mode) in
    or_error
      (first_error (check_capacity count)
        (check_config count producer_mode consumer_mode fixed_topology cfg))
      cfg
