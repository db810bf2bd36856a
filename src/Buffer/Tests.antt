-- ===== src/Buffer/Tests.antt =====
-- Runs of the buffer on small inputs.
use go_data_structures.Base.{
  ℕ, zero, suc, get_or, ◌≤◌, ◌+◌, ◌-◌, ◌^◌, ◌≡◌, refl, List, [], ◌∷◌, none, some, true, arith,
  slice, blit,
}
use go_data_structures.Base.Go.{
  returns, panics, append_exceeds, consume_range, negative_grow, slice_bounds,
}
use go_data_structures.Buffer.Defs.{
  Buffer, append, consume, grow, compact_and_zero, available_buffer, consume_and_zero,
  consume_right, truncate, make_room, compact, move_down, span, put_behind, write_span, read_span,
  check_count, raise_high_water, reset_start_if_empty, clear, grow_and_zero, grow_with, reserve,
}
use go_data_structures.Buffer.Spec
use go_data_structures.Buffer.Spec.{
  Call, AllInRange, appends, fills, grows_zeroed, grows_negative, consumes, consumes_right,
  truncates, consumes_zeroed, compacts_zeroed, resets,
}
use go_data_structures.Buffer.Inv.{IsValid, contents}
use go_data_structures.Buffer.Calls.{run, step, run_refines}
use go_data_structures.Buffer.Clear.{consume_and_zero_clears}
use go_data_structures.Buffer.CompactZero.{compact_and_zero_lem}
use go_data_structures.Buffer.Views.{free_span, write_room, available_buffer_safe}
use go_data_structures.Buffer.Bytes
use go_data_structures.Buffer.Pool.{
  SyncPool, Pool, new_pool, get, put, IsFresh, Reach, start, put_back, get-IsFresh,
}
use go_data_structures.Buffer.Grow.{grow_overflow_corrupts}
use go_data_structures.Buffer.Growth.{fill, grow_unused, grow_zeros}

-- 7, 8 and 9 were appended and 7 consumed.
abbrev two_left : Buffer ℕ
two_left = record { store = 7 ∷ 8 ∷ 9 ∷ 0 ∷ []; start = 1; count = 2; high_water = 3 }

two_left-IsValid : IsValid 0 two_left
two_left-IsValid = record {
  small = omega arith;
  written = omega arith;
  marked = omega arith;
  based = λ e. absurd (omega arith);
  clean = clear_above;
}
  where
    clear_above : (i : ℕ) → 3 ≤ i → get_or two_left.store i 0 ≡ 0
    clear_above zero h = absurd (omega arith)
    clear_above (suc zero) h = absurd (omega arith)
    clear_above (suc (suc zero)) h = absurd (omega arith)
    clear_above (suc (suc (suc zero))) h = refl
    clear_above (suc (suc (suc (suc i)))) h = refl

-- The calls run: an append that compacts, one that does not fit, removals, and growth.
abbrev calls : List (Call ℕ)
calls =
    appends (4 ∷ 5 ∷ [])
    ∷ consumes 1
    ∷ appends (6 ∷ 6 ∷ 6 ∷ [])
    ∷ consumes_right 9
    ∷ truncates 2
    ∷ compacts_zeroed
    ∷ fills (1 ∷ [])
    ∷ grows_zeroed 1
    ∷ consumes_zeroed 1
    ∷ grows_zeroed (2 ^ 64 - 1)
    ∷ grows_negative (2 ^ 64 - 5)
    ∷ []

run_example : run 0 calls two_left ≡ (
  returns tt
      ∷ returns tt
      ∷ panics append_exceeds
      ∷ panics consume_range
      ∷ returns tt
      ∷ returns tt
      ∷ returns tt
      ∷ returns tt
      ∷ returns tt
      ∷ panics negative_grow
      ∷ panics negative_grow
      ∷ [],
  record { store = 0 ∷ 4 ∷ 1 ∷ 0 ∷ []; start = 1; count = 3; high_water = 4 },
)
unfolding run step append consume consume_right truncate compact_and_zero fill grow_zeros
    grow_unused consume_and_zero make_room compact move_down span put_behind write_span blit
    read_span slice check_count raise_high_water reset_start_if_empty clear grow grow_and_zero
    grow_with reserve
run_example = refl

calls-AllInRange : AllInRange 4 calls
calls-AllInRange = ground arith

run_refines_example :
    let (os, b') = run 0 calls two_left in
    IsValid 0 b' × ((os, contents b') ≡ Spec.run 4 0 calls (8 ∷ 9 ∷ []))
unfolding contents slice
run_refines_example = run_refines 0 calls two_left-IsValid calls-AllInRange

compact_and_zero_lem_example :
    compact_and_zero 0 two_left
    ≡ (returns tt, record { store = 8 ∷ 9 ∷ 0 ∷ 0 ∷ []; start = 0; count = 2; high_water = 2 })
unfolding contents slice
compact_and_zero_lem_example = compact_and_zero_lem 0 two_left-IsValid

consume_and_zero_clears_example : slice (consume_and_zero 0 2 two_left).1.store 1 2 ≡ 0 ∷ 0 ∷ []
consume_and_zero_clears_example = consume_and_zero_clears 0 2 (omega arith) two_left-IsValid

available_buffer_safe_example :
    let b' = write_room (free_span two_left) 0 (5 ∷ []) (available_buffer two_left).1 in
    ((available_buffer two_left).0 ≡ returns (free_span two_left))
    × IsValid 0 b'
    × (contents b' ≡ contents two_left)
available_buffer_safe_example = available_buffer_safe two_left-IsValid 0 (5 ∷ []) (omega arith)

grow_overflow_corrupts_example :
    let (o, b') = grow 0 (2 ^ 63 - 1) two_left in
    (o ≡ panics slice_bounds) × (b'.count ≡ 2 ^ 63 + 1) × ¬ (IsValid 0 b')
grow_overflow_corrupts_example =
    grow_overflow_corrupts 0 two_left-IsValid (2 ^ 63 - 1) (omega arith) (omega arith)

write_lem_example :
    let (o, b') = Bytes.write (5 ∷ 6 ∷ 7 ∷ []) two_left in
    (o ≡ returns (2, some Bytes.full)) × (contents b' ≡ 8 ∷ 9 ∷ 5 ∷ 6 ∷ []) × IsValid 0 b'
unfolding contents slice
write_lem_example = Bytes.write_lem two_left-IsValid (5 ∷ 6 ∷ 7 ∷ []) (omega arith)

read_lem_example :
    let (o, b') = Bytes.read 5 two_left in
    (o ≡ returns (8 ∷ 9 ∷ [], 2, none)) × (contents b' ≡ []) × IsValid 0 b'
unfolding contents slice
read_lem_example = Bytes.read_lem two_left-IsValid 5

-- A pool that hands out what was put last.
abbrev All {ℓ} : {A : Type ℓ} → (A → Type 0) → List A → Type 0
All P [] = Unit
All P (a ∷ s) = P a × All P s

abbrev take_last : {A : Type 0} → A → List A → A × List A
take_last fresh [] = (fresh, [])
take_last fresh (a ∷ s) = (a, s)

take_last-All :
    {A : Type 0} (P : A → Type 0) (fresh : A) (s : List A)
    → P fresh
    → All P s
    → P (take_last fresh s).0 × All P (take_last fresh s).1
take_last-All P fresh [] h k = (h, tt)
take_last-All P fresh (a ∷ s) h k = (k.0, k.1)

abbrev stack_pool : {A : Type 0} → SyncPool A
stack_pool {A} = record {
  Store = List A;
  nothing = [];
  put = λ a s. a ∷ s;
  get = take_last;
  All = All;
  All-nothing = λ P. tt;
  All-put = λ P a s h k. (h, k);
  All-get = take_last-All;
}

abbrev wiping : Pool {T = ℕ} 0 stack_pool
wiping = record { pool = []; cap = 4; zero_on_put = true }

wiping-Reach : Reach {T = ℕ} 0 stack_pool 4 true wiping
unfolding new_pool
wiping-Reach = start refl

get-IsFresh_example :
    IsFresh {T = ℕ} 0 stack_pool 4 true
      (get 0 stack_pool (put 0 stack_pool wiping (some two_left)).1).0
get-IsFresh_example = get-IsFresh 0 stack_pool (put_back wiping-Reach two_left-IsValid)
