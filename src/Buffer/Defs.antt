-- ===== src/Buffer/Defs.antt =====
-- buffer/buffer.go, the type and the methods. An `int` is a bit pattern (see the integers of the
-- helpers); a method is a function from the buffer to its outcome and the buffer that it leaves.
use go_data_structures.Base.{
  ℕ, ◌-◌, Bool, true, false, ◌&&◌, ◌||◌, not, List, ltb, ◌==◌, if◌then◌else◌, length, replicate,
  take, blit, slice, add_int, sub_int, is_negative, lt_int,
}
use go_data_structures.Base.Go.{
  Go, Outcome, returns, panics, Panic, negative_capacity, append_exceeds, negative_grow,
  grow_exceeds, truncate_range, consume_range, slice_bounds, ◌>>=◌, ◌>>◌, pure, panic, panic_if,
  read, modify, when,
}

-- `data`, `start`, `length` and `highWater`; the length of `store` is `cap(b.data)`, which is also
-- its length.
pub record Buffer (T : Type 0) : Type 0 where
  pub store : List T
  pub start : ℕ
  pub count : ℕ
  pub high_water : ℕ

-- A slice of the backing array: it begins at `from` and has a length and a capacity.
pub record Span : Type 0 where
  pub from : ℕ
  pub len : ℕ
  pub room : ℕ

module _ {T : Type 0} where
  abbrev pub capacity : Buffer T → ℕ
  capacity b = length b.store

  -- `b.data[lo:hi:max]`. The runtime compares bit patterns, so a negative bound is out of range.
  unfoldable pub span : ℕ → ℕ → ℕ → Go (Buffer T) Span
  span lo hi max b =
      if ltb hi lo || ltb max hi || ltb (capacity b) max
      then panic slice_bounds b
      else pure (record { from = lo; len = hi - lo; room = max - lo }) b

  -- `copy(s, values)` for a slice `s` of the array, and the assignments of a caller that fills `s`.
  unfoldable pub write_span : Span → List T → Buffer T → Buffer T
  write_span s vs b = record b { store = blit b.store s.from (take s.len vs) }

  -- The values that a slice of the array shows.
  unfoldable pub read_span : Span → Buffer T → List T
  read_span s b = slice b.store s.from s.len

  -- `raiseHighWater`
  unfoldable pub raise_high_water : ℕ → Buffer T → Buffer T
  raise_high_water end b = if lt_int b.high_water end then record b { high_water = end } else b

  -- `checkCount`
  unfoldable pub check_count : ℕ → Panic → Go (Buffer T) (Unit {0})
  check_count n operation b = panic_if (is_negative n || lt_int b.count n) operation b

  -- `resetStartIfEmpty`
  unfoldable pub reset_start_if_empty : Buffer T → Buffer T
  reset_start_if_empty b = if b.count == 0 then record b { start = 0 } else b

  -- `Available`
  unfoldable pub available : Buffer T → ℕ
  available b = sub_int (capacity b) b.count

  -- `AvailableBuffer`
  unfoldable pub available_buffer : Go (Buffer T) Span
  available_buffer = do
    b ← read
    let end = add_int b.start b.count
    modify (raise_high_water (capacity b))
    span end end (capacity b)

  -- `Slice`
  unfoldable pub live : Go (Buffer T) Span
  live = do b ← read; let end = add_int b.start b.count; span b.start end end

  -- `Reset`
  unfoldable pub reset : Buffer T → Buffer T
  reset b = record b { start = 0; count = 0 }

  -- `Truncate`
  unfoldable pub truncate : ℕ → Go (Buffer T) (Unit {0})
  truncate n = do
    check_count n truncate_range
    modify (λ b. reset_start_if_empty (record b { count = n }))

  -- `Consume`
  unfoldable pub consume : ℕ → Go (Buffer T) (Unit {0})
  consume n = do
    check_count n consume_range
    modify (λ b.
        reset_start_if_empty (record b { start = add_int b.start n; count = sub_int b.count n }))

  -- `ConsumeRight`
  unfoldable pub consume_right : ℕ → Go (Buffer T) (Unit {0})
  consume_right n = do check_count n consume_range; b ← read; truncate (sub_int b.count n)

  -- `copy(b.data[0:n], b.data[lo:lo+n])` on the live elements, the move of both compactions.
  unfoldable pub move_down : Go (Buffer T) (Unit {0})
  move_down = do
    b ← read
    to ← span 0 b.count (capacity b)
    from ← span b.start (add_int b.start b.count) (capacity b)
    modify (write_span to (read_span from b))

  -- `Compact`
  unfoldable pub compact : Go (Buffer T) (Unit {0})
  compact = do
    b ← read
    when (not (b.start == 0 || b.count == 0)) move_down
    modify (λ c. record c { start = 0 })

  -- Compaction, when the space behind the live elements is below `n`.
  unfoldable pub make_room : ℕ → Go (Buffer T) (Unit {0}) → Go (Buffer T) (Unit {0})
  make_room n compaction = do
    b ← read
    when (lt_int (sub_int (capacity b) (add_int b.start b.count)) n) compaction

  -- The values behind the live elements: the end of `Append`.
  unfoldable pub put_behind : List T → Go (Buffer T) (Unit {0})
  put_behind values = do
    b ← read
    to ← span (add_int b.start b.count) (capacity b) (capacity b)
    modify (write_span to values)
    modify (λ c. record c { count = add_int c.count (length values) })
    modify (λ c. raise_high_water (add_int c.start c.count) c)

  -- `Append`
  unfoldable pub append : List T → Go (Buffer T) (Unit {0})
  append values = do
    let n = length values
    when (not (n == 0)) (do
      b ← read
      panic_if (lt_int (capacity b) (add_int b.count n)) append_exceeds
      make_room n compact
      put_behind values)

module _ {T : Type 0} (empty : T) where
  -- `clear(b.data[lo:hi])`, with `empty` the zero value of `T`.
  unfoldable pub clear : ℕ → ℕ → Go (Buffer T) (Unit {0})
  clear lo hi = do
    b ← read
    s ← span lo hi (capacity b)
    modify (write_span s (replicate s.len empty))

  -- `NewBuffer`
  unfoldable pub new_buffer : ℕ → Outcome (Buffer T)
  new_buffer n =
      if is_negative n
      then panics negative_capacity
      else returns (record { store = replicate n empty; start = 0; count = 0; high_water = 0 })

  -- `ResetAndZero`
  unfoldable pub reset_and_zero : Go (Buffer T) (Unit {0})
  reset_and_zero = do b ← read; clear b.start (add_int b.start b.count); modify reset

  -- `TruncateAndZero`
  unfoldable pub truncate_and_zero : ℕ → Go (Buffer T) (Unit {0})
  truncate_and_zero n = do
    check_count n truncate_range
    b ← read
    clear (add_int b.start n) (add_int b.start b.count)
    modify (λ c. reset_start_if_empty (record c { count = n }))

  -- `ConsumeAndZero`
  unfoldable pub consume_and_zero : ℕ → Go (Buffer T) (Unit {0})
  consume_and_zero n = do
    check_count n consume_range
    b ← read
    clear b.start (add_int b.start n)
    modify (λ c.
        reset_start_if_empty (record c { start = add_int c.start n; count = sub_int c.count n }))

  -- `ConsumeRightAndZero`
  unfoldable pub consume_right_and_zero : ℕ → Go (Buffer T) (Unit {0})
  consume_right_and_zero n = do
    check_count n consume_range
    b ← read
    truncate_and_zero (sub_int b.count n)

  -- `CompactAndZero`
  unfoldable pub compact_and_zero : Go (Buffer T) (Unit {0})
  compact_and_zero = do
    b ← read
    when (lt_int 0 b.start && lt_int 0 b.count) move_down
    modify (λ c. record c { start = 0 })
    when (lt_int b.count b.high_water) (clear b.count b.high_water)
    modify (λ c. record c { high_water = c.count })

  -- `resetAndZeroAll`
  unfoldable pub reset_and_zero_all : Go (Buffer T) (Unit {0})
  reset_and_zero_all = do
    b ← read
    clear 0 b.high_water
    modify (λ c. record c { start = 0; count = 0; high_water = 0 })

  -- The end of `grow`: `n` more live elements, zeroed if `should_zero`.
  unfoldable pub reserve : ℕ → Bool → Go (Buffer T) Span
  reserve n should_zero = do
    b ← read
    let start = add_int b.start b.count
    let end = add_int start n
    modify (λ c. record c { count = add_int c.count n })
    when should_zero (clear start end)
    modify (raise_high_water end)
    span start end end

  -- `grow`
  unfoldable pub grow_with : ℕ → Bool → Go (Buffer T) Span
  grow_with n should_zero = do
    panic_if (is_negative n) negative_grow
    b ← read
    panic_if (lt_int (capacity b) (add_int b.count n)) grow_exceeds
    make_room n (if should_zero then compact_and_zero else compact)
    reserve n should_zero

  -- `Grow`
  unfoldable pub grow : ℕ → Go (Buffer T) Span
  grow n = grow_with n false

  -- `GrowAndZero`
  unfoldable pub grow_and_zero : ℕ → Go (Buffer T) Span
  grow_and_zero n = grow_with n true
