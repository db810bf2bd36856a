-- ===== src/Dpdk/Shared.antt =====
-- ring/internal/shared/shared.go: the checks of a constructor's arguments and of a batch's length.
-- Arguments are `int` bit patterns.
use Prim.Native.Nat.{bit_and}
use go_data_structures.Base.{
  ℕ, ◌^◌, ◌&&◌, ◌||◌, not, Option, none, some, ◌==◌, if◌then◌else◌, lt_int, sub_int,
}
use go_data_structures.Dpdk.Errors.{
  Error, invalid_count, exceeds_capacity, invalid_max_batch, exceeds_max_batch,
}

-- `MaxCount`
abbrev pub max_count : ℕ
max_count = 2 ^ 30

-- `CheckCapacity`
unfoldable pub check_capacity : ℕ → Option Error
check_capacity count =
    let in_range = not (lt_int count 1) && not (lt_int max_count count) in
    let is_power_of_two = bit_and count (sub_int count 1) == 0 in
    if not in_range || not is_power_of_two then some invalid_count else none

-- `CheckMaxBatch`
unfoldable pub check_max_batch : ℕ → ℕ → Option Error
check_max_batch max_batch count =
    if not (lt_int max_batch 1) && not (lt_int count max_batch)
    then none
    else some invalid_max_batch

-- `BatchLengthError`
unfoldable pub batch_length_error : ℕ → ℕ → Error
batch_length_error length capacity =
    if lt_int capacity length then exceeds_capacity else exceeds_max_batch
