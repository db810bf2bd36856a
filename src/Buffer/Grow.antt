-- ===== src/Buffer/Grow.antt =====
-- `Grow` and `GrowAndZero`.
use go_data_structures.Base.{
  ℕ, ◌+◌, ◌-◌, ◌^◌, ◌≤◌, ◌<◌, ◌≡◌, refl, ap, Bool, true, false, arith, inl, inr, Bool-cases,
  replicate, length-replicate, length-blit, add_int, ltb, if◌then◌else◌,
}
use go_data_structures.Base.Go.{returns, panics, negative_grow, grow_exceeds, slice_bounds}
use go_data_structures.Buffer.Defs.{
  Buffer, Span, capacity, span, raise_high_water, compact, compact_and_zero, make_room, reserve,
  grow_with, grow, grow_and_zero,
}
use go_data_structures.Buffer.Inv.{IsValid}
use go_data_structures.Buffer.Clear.{clear_lem}
use go_data_structures.Buffer.CompactZero.{
  tidied, compact_and_zero_lem, length-tidied, contents-tidied, tidied-IsValid,
}
use go_data_structures.Buffer.Compact.{after_compact, compact_result, after_compact-IsCompacted}
use go_data_structures.Buffer.Room.{
  room_for, reserved, extended, HasRoom, room_for-HasRoom, make_room_lem,
}

-- The slice that `grow` returns: the `n` elements behind the live ones of `m`.
abbrev pub fresh_span : {T : Type 0} → Buffer T → ℕ → Span
fresh_span m n = record { from = m.start + m.count; len = n; room = n }

-- The buffer after the compaction of `GrowAndZero`.
abbrev pub zero_room_for : {T : Type 0} → T → Buffer T → ℕ → Buffer T
zero_room_for empty b n = if ltb (capacity b - (b.start + b.count)) n then tidied empty b else b

module _ {T : Type 0} (empty : T) where
  module _ {m : Buffer T} (v : IsValid empty m) (n : ℕ)
      (h : m.start + m.count + n ≤ capacity m) where
    reserve_lem : reserve empty n false m ≡ (returns (fresh_span m n), reserved m n)
    unfolding reserve span raise_high_water
    reserve_lem = ground arith

    reserve_zeroed :
        reserve empty n true m ≡ (returns (fresh_span m n), extended m (replicate n empty))
    unfolding reserve span raise_high_water
    reserve_zeroed = ground (
      arith,
      length-replicate n empty,
      length-blit m.store (m.start + m.count) (replicate n empty),
      clear_lem empty (add_int m.start m.count) (add_int (add_int m.start m.count) n)
          (record m { count = add_int m.count n }),
    )

  module _ {b : Buffer T} (v : IsValid empty b) where
    pub zero_room_for-HasRoom :
        (n : ℕ) (h : b.count + n ≤ capacity b) → HasRoom empty v n h (zero_room_for empty b n)
    zero_room_for-HasRoom n h = elim (Bool-cases (ltb (capacity b - (b.start + b.count)) n)) [
      | inl e ↦ rw e (record {
        valid = tidied-IsValid empty v;
        room = omega (arith, length-tidied empty v);
        same_count = refl;
        same_capacity = length-tidied empty v;
        same_contents = contents-tidied empty v;
      })
      | inr e ↦ rw e (record {
        valid = v;
        room = ground arith;
        same_count = refl;
        same_capacity = refl;
        same_contents = refl;
      })
    ]

    zero_room_lem :
        (n : ℕ)
        → b.count + n ≤ capacity b
        → make_room n (compact_and_zero empty) b ≡ (returns tt, zero_room_for empty b n)
    unfolding make_room
    zero_room_lem n h = ground (arith, compact_and_zero_lem empty v)

    -- `Grow` within the capacity.
    pub grow_fits :
        (n : ℕ)
        → b.count + n ≤ capacity b
        → grow empty n b ≡ (returns (fresh_span (room_for b n) n), reserved (room_for b n) n)
    unfolding grow grow_with
    grow_fits n h =
        let r = room_for-HasRoom empty v n h in
        ground (arith, make_room_lem empty v n h, reserve_lem r.valid n r.room)

    pub grow_and_zero_fits :
        (n : ℕ)
        → b.count + n ≤ capacity b
        → grow_and_zero empty n b ≡ (
          returns (fresh_span (zero_room_for empty b n) n),
          extended (zero_room_for empty b n) (replicate n empty),
        )
    unfolding grow_and_zero grow_with
    grow_and_zero_fits n h =
        let r = zero_room_for-HasRoom n h in
        ground (arith, zero_room_lem n h, reserve_zeroed r.valid n r.room)

    grow_with_exceeds :
        (n : ℕ) (z : Bool)
        → capacity b < b.count + n
        → b.count + n < 2 ^ 63
        → grow_with empty n z b ≡ (panics grow_exceeds, b)
    unfolding grow_with
    grow_with_exceeds n z h k = ground arith

    pub grow_and_zero_exceeds :
        (n : ℕ)
        → capacity b < b.count + n
        → b.count + n < 2 ^ 63
        → grow_and_zero empty n b ≡ (panics grow_exceeds, b)
    unfolding grow_and_zero
    grow_and_zero_exceeds n h k = grow_with_exceeds n true h k

    pub grow_exceeds_lem :
        (n : ℕ)
        → capacity b < b.count + n
        → b.count + n < 2 ^ 63
        → grow empty n b ≡ (panics grow_exceeds, b)
    unfolding grow
    grow_exceeds_lem n h k = grow_with_exceeds n false h k

    -- A negative count is refused before anything else.
    pub grow_with_negative :
        (n : ℕ) (z : Bool) → 2 ^ 63 ≤ n → grow_with empty n z b ≡ (panics negative_grow, b)
    unfolding grow_with
    grow_with_negative n z h = ground arith

    make_room_tight :
        (n : ℕ)
        → n < 2 ^ 63
        → capacity b - (b.start + b.count) < n
        → make_room n compact b ≡ (returns tt, after_compact b)
    unfolding make_room
    make_room_tight n h k = ground (arith, compact_result empty v)

    reserve_overflows :
        (n : ℕ)
        → b.start ≡ 0
        → n < 2 ^ 63
        → 2 ^ 63 ≤ b.count + n
        → reserve empty n false b ≡ (panics slice_bounds, record b { count = b.count + n })
    unfolding reserve span raise_high_water
    reserve_overflows n e h k = ground arith

  module _ {b : Buffer T} (v : IsValid empty b) where
    grow_overflow :
        (n : ℕ)
        → n < 2 ^ 63
        → 2 ^ 63 ≤ b.count + n
        → grow empty n b
          ≡ (panics slice_bounds, record (after_compact b) { count = (after_compact b).count + n })
    unfolding grow grow_with
    grow_overflow n h k =
        let c = after_compact-IsCompacted empty v in
        ground (arith, make_room_tight v n h, reserve_overflows c.valid n c.front h, c.same_count)

    -- When the length and an `int` count have a sum past the largest `int`, `Grow` on a valid buffer
    -- panics with the runtime's slice bounds error, and the length is then that sum, a negative
    -- `int`, in a buffer that is not valid.
    pub grow_overflow_corrupts :
        (n : ℕ)
        → n < 2 ^ 63
        → 2 ^ 63 ≤ b.count + n
        → let (o, b') = grow empty n b in
          (o ≡ panics slice_bounds) × (b'.count ≡ b.count + n) × ¬ (IsValid empty b')
    grow_overflow_corrupts n h k =
        let c = after_compact-IsCompacted empty v in
        rw (grow_overflow n h k)
          (refl, ap (λ m. m + n) c.same_count, λ w. omega (arith, c.same_count, c.same_capacity))
