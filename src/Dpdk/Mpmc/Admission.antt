-- ===== src/Dpdk/Mpmc/Admission.antt =====
-- ring/dpdk/mpmc.go: what a reservation decides from the words that it has loaded. All numbers are
-- `uint32`s.
use go_data_structures.Base.{
  ℕ, ◌-◌, Bool, ◌&&◌, ◌||◌, add_u32, sub_u32, ltb, ◌==◌, min, if◌then◌else◌,
}

-- The side of a call.
pub data Role : Type 0 where
  producer consumer : Role

-- What an attempt ends in: another one, no reservation, or one of some slots. A refusal and a grant
-- report how many are left.
pub data Verdict : Type 0 where
  again : Verdict
  refused : ℕ → Verdict
  granted : ℕ → ℕ → Verdict

-- `exact || requested == 0 || head-cached > capacity-requested`
unfoldable pub must_load_producer : Bool → ℕ → ℕ → ℕ → ℕ → Bool
must_load_producer exact capacity requested head cached =
    exact || requested == 0 || ltb (sub_u32 capacity requested) (sub_u32 head cached)

-- `exact || requested == 0 || cached-head-requested > capacity-requested`
unfoldable pub must_load_consumer : Bool → ℕ → ℕ → ℕ → ℕ → Bool
must_load_consumer exact capacity requested head cached =
    exact
    || requested == 0
    || ltb (sub_u32 capacity requested) (sub_u32 (sub_u32 cached head) requested)

-- `capacity + published - head`
unfoldable pub free_slots : ℕ → ℕ → ℕ → ℕ
free_slots capacity published head = sub_u32 (add_u32 capacity published) head

-- `published - head`
unfoldable pub filled_slots : ℕ → ℕ → ℕ → ℕ
filled_slots capacity published head = sub_u32 published head

unfoldable pub must_load : Role → Bool → ℕ → ℕ → ℕ → ℕ → Bool
unfolding must_load_producer must_load_consumer
must_load producer = must_load_producer
must_load consumer = must_load_consumer

unfoldable pub space : Role → ℕ → ℕ → ℕ → ℕ
unfolding free_slots filled_slots
space producer = free_slots
space consumer = filled_slots

-- From the test of the range to the compare-and-swap, for a call that retries.
unfoldable pub admit : ℕ → ℕ → Bool → ℕ → Verdict
admit capacity requested fixed room =
    let count = min requested room in
    if ltb capacity room
    then (if requested == 0 then refused capacity else again)
    else if fixed && ltb room requested
    then refused room
    else if count == 0
    then refused room
    else granted count (room - count)
