-- ===== src/Dpdk/Checks.antt =====
-- What the checks of a constructor accept.
use Prim.Native.Nat.{bit_and}
use go_data_structures.Base.{
  ℕ, ◌-◌, ◌≤◌, ◌<◌, ◌^◌, ◌≡◌, refl, arith, Bool, true, false, Option, none, some, sub_int,
}
use go_data_structures.Base.Bits.{power_of_two, bit_and-power}
use go_data_structures.Dpdk.Capacity.{IsCapacity, capacity_bounds, exponent_bound}
use go_data_structures.Dpdk.Errors.{Error}
use go_data_structures.Dpdk.Shared.{check_capacity, check_max_batch}
use go_data_structures.Dpdk.Options.{
  SyncMode, single, multi, relaxed, is_single, Config, check_spins_before_yield,
  check_topology_mode, check_head_tail_distance, check_head_tail_distance_number, distance_error,
  check_topology, check_config, first_error,
}

-- A count is accepted when it is a power of two of at most 2 ^ 30.
pub check_capacity-IsCapacity :
    (count : ℕ) → count < 2 ^ 64 → check_capacity count ≡ none → IsCapacity count
unfolding check_capacity
check_capacity-IsCapacity count h e =
    let range : (1 ≤ count) × (count ≤ 2 ^ 30) = ground arith in
    let below : sub_int count 1 ≡ count - 1 = omega arith in
    let test : bit_and count (count - 1) ≡ 0 = ground (arith, below) in
    let (k, power) = power_of_two count (omega arith) test in
    record { exponent = k; bounded = exponent_bound k (omega arith); power = power }

pub check_capacity_accepts : {count : ℕ} → IsCapacity count → check_capacity count ≡ none
unfolding check_capacity
check_capacity_accepts {count} c =
    let below : sub_int count 1 ≡ count - 1 = omega (arith, capacity_bounds c) in
    let test : bit_and count (count - 1) ≡ 0 = rw c.power (bit_and-power c.exponent) in
    rw (below, test) (ground (arith, capacity_bounds c))

-- The numbers of a configuration are bit patterns of an `int`.
abbrev pub IsIntConfig : Config → Type 0
IsIntConfig cfg =
    (cfg.max_enqueue_batch < 2 ^ 64)
    × (cfg.max_dequeue_batch < 2 ^ 64)
    × (cfg.spins_before_yield < 2 ^ 64)

-- What `NewSPSCQueue` asks of the final configuration.
pub record IsSerial (count : ℕ) (cfg : Config) : Type 0 where
  pub enqueue_limit : (1 ≤ cfg.max_enqueue_batch) × (cfg.max_enqueue_batch ≤ count)
  pub dequeue_limit : (1 ≤ cfg.max_dequeue_batch) × (cfg.max_dequeue_batch ≤ count)
  pub spins : cfg.spins_before_yield < 2 ^ 31
  pub no_spins_set : cfg.spins_before_yield_set ≡ false
  pub serial_producer : is_single cfg.prod_mode ≡ true
  pub serial_consumer : is_single cfg.cons_mode ≡ true
  pub no_producer_distance : cfg.producer_head_tail_distance_set ≡ false
  pub no_consumer_distance : cfg.consumer_head_tail_distance_set ≡ false

pub first_none : (e d : Option Error) → first_error e d ≡ none → (e ≡ none) × (d ≡ none)
first_none (some x) d h = ground arith
first_none none d h = (refl, h)

pub first_none_of : (e d : Option Error) → e ≡ none → d ≡ none → first_error e d ≡ none
first_none_of (some x) d h k = ground arith
first_none_of none d h k = k

module _ (count : ℕ) (c : count ≤ 2 ^ 30) where
  pub batch_range : (n : ℕ) → n < 2 ^ 64 → check_max_batch n count ≡ none → (1 ≤ n) × (n ≤ count)
  unfolding check_max_batch
  batch_range n h e = ground arith

  batch_range_of : (n : ℕ) → 1 ≤ n → n ≤ count → check_max_batch n count ≡ none
  unfolding check_max_batch
  batch_range_of n h e = ground arith

spins_range : (n : ℕ) → n < 2 ^ 64 → check_spins_before_yield n ≡ none → n < 2 ^ 31
unfolding check_spins_before_yield
spins_range n h e = ground arith

spins_range_of : (n : ℕ) → n < 2 ^ 31 → check_spins_before_yield n ≡ none
unfolding check_spins_before_yield
spins_range_of n h = ground arith

serial_mode : (m : SyncMode) → check_topology_mode m single ≡ none → is_single m ≡ true
unfolding check_topology_mode is_single
serial_mode single e = refl
serial_mode multi e = ground arith
serial_mode relaxed e = ground arith

serial_mode_of : (m : SyncMode) → is_single m ≡ true → check_topology_mode m single ≡ none
unfolding check_topology_mode is_single
serial_mode_of single e = refl
serial_mode_of multi e = ground arith
serial_mode_of relaxed e = ground arith

-- A serialized side takes no distance.
no_distance :
    (d : ℕ) (explicit : Bool) (m : SyncMode)
    → check_head_tail_distance d explicit m true ≡ none
    → explicit ≡ false
unfolding check_head_tail_distance check_head_tail_distance_number distance_error
no_distance d explicit m e = ground arith

no_distance_of : (d : ℕ) (m : SyncMode) → check_head_tail_distance d false m true ≡ none
unfolding check_head_tail_distance
no_distance_of d m = refl

-- The configurations that `NewSPSCQueue` accepts.
pub check_config-IsSerial :
    (count : ℕ) (cfg : Config)
    → count ≤ 2 ^ 30
    → IsIntConfig cfg
    → check_config count single single true cfg ≡ none
    → IsSerial count cfg
unfolding check_config check_topology is_single
check_config-IsSerial count cfg c i e =
    let (e1, r1) = first_none _ _ e in
    let (e2, r2) = first_none _ _ r1 in
    let (e3, r3) = first_none _ _ r2 in
    let (e4, r4) = first_none _ _ r3 in
    let (e5, e6) = first_none _ _ r4 in
    let (p1, s1) = first_none _ _ e4 in
    let (p2, p3) = first_none _ _ s1 in
    record {
      enqueue_limit = batch_range count c cfg.max_enqueue_batch i.0 e1;
      dequeue_limit = batch_range count c cfg.max_dequeue_batch i.1 e2;
      spins = spins_range cfg.spins_before_yield i.2 e3;
      no_spins_set = ground arith;
      serial_producer = serial_mode cfg.prod_mode p1;
      serial_consumer = serial_mode cfg.cons_mode p2;
      no_producer_distance =
          no_distance cfg.max_producer_head_tail_distance cfg.producer_head_tail_distance_set
            cfg.prod_mode e5;
      no_consumer_distance =
          no_distance cfg.max_consumer_head_tail_distance cfg.consumer_head_tail_distance_set
            cfg.cons_mode e6;
    }

pub check_config_accepts :
    (count : ℕ) (cfg : Config)
    → count ≤ 2 ^ 30
    → IsSerial count cfg
    → check_config count single single true cfg ≡ none
unfolding check_config check_topology is_single
check_config_accepts count cfg c s =
    rw
      (
        batch_range_of count c cfg.max_enqueue_batch s.enqueue_limit.0 s.enqueue_limit.1,
        batch_range_of count c cfg.max_dequeue_batch s.dequeue_limit.0 s.dequeue_limit.1,
        spins_range_of cfg.spins_before_yield s.spins,
        serial_mode_of cfg.prod_mode s.serial_producer,
        serial_mode_of cfg.cons_mode s.serial_consumer,
        s.no_spins_set,
        s.no_producer_distance,
        s.no_consumer_distance,
        no_distance_of cfg.max_producer_head_tail_distance cfg.prod_mode,
        no_distance_of cfg.max_consumer_head_tail_distance cfg.cons_mode,
      )
      refl
