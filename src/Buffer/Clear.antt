-- ===== src/Buffer/Clear.antt =====
-- The zeroing forms: what they clear, and that they remove as the plain forms do.
use go_data_structures.Base.{
  ℕ, ◌+◌, ◌-◌, ◌^◌, ◌≤◌, ◌<◌, ◌≡◌, refl, ap, ◌∙◌, List, ◌++◌, arith, get_or-blit_inside,
  eq_of_clear, length, get_or, slice, slice-zero, take, drop-slice, take-slice, replicate,
  length-replicate, take_all, lt_or_le, inl, inr, blit, length-blit, get_or-blit-replicate,
  slice-blit_self, slice-blit_below, slice-blit_above,
}
use go_data_structures.Base.Go.{returns}
use go_data_structures.Buffer.Defs.{
  Buffer, span, write_span, capacity, check_count, reset_start_if_empty, reset, clear, truncate,
  consume, reset_and_zero, truncate_and_zero, consume_and_zero, consume_right_and_zero,
  reset_and_zero_all,
}
use go_data_structures.Buffer.Spec
use go_data_structures.Buffer.Remove.{consume-IsValid, truncate-IsValid}
use go_data_structures.Buffer.Inv.{IsValid, contents, length-contents}

take-replicate : {T : Type 0} (n : ℕ) (d : T) → take n (replicate n d) ≡ replicate n d
take-replicate n d = take_all n (replicate n d) (omega (arith, length-replicate n d))

-- The store with `n` zeros from `lo` on.
abbrev pub wiped : {T : Type 0} → T → Buffer T → ℕ → ℕ → List T
wiped empty b lo n = blit b.store lo (replicate n empty)

module _ {T : Type 0} (empty : T) where
  -- `clear(b.data[lo:hi])` within bounds.
  pub clear_lem :
      (lo hi : ℕ) (b : Buffer T)
      → lo ≤ hi
      → hi ≤ capacity b
      → clear empty lo hi b ≡ (returns tt, record b { store = wiped empty b lo (hi - lo) })
  unfolding clear span write_span
  clear_lem lo hi b h k = ground (arith, take-replicate (hi - lo) empty)

  pub wiped-IsValid :
      (lo n : ℕ) {b : Buffer T}
      → IsValid empty b
      → IsValid empty (record b { store = wiped empty b lo n })
  wiped-IsValid lo n {b} v = record {
    small = omega (arith, length-blit b.store lo (replicate n empty));
    written = v.written;
    marked = omega (arith, length-blit b.store lo (replicate n empty));
    based = v.based;
    clean = λ i h. get_or-blit-replicate b.store lo i n empty (v.clean i h);
  }

  pub slice-wiped :
      (lo n : ℕ) (b : Buffer T)
      → lo + n ≤ capacity b
      → slice (wiped empty b lo n) lo n ≡ replicate n empty
  slice-wiped lo n b h =
      rw (length-replicate n empty) at
        (slice-blit_self b.store lo (replicate n empty) (omega (arith, length-replicate n empty)))

  take-contents :
      (b : Buffer T) (n : ℕ) → n ≤ b.count → take n (contents b) ≡ slice b.store b.start n
  unfolding contents
  take-contents b n h = take-slice b.store b.start n b.count h

  -- Zeros past the live elements that stay do not show.
  pub consume_and_zero_refines :
      (n : ℕ) {b : Buffer T}
      → n < 2 ^ 64
      → IsValid empty b
      → let (o, b') = consume_and_zero empty n b in (o, contents b') ≡ Spec.consume n (contents b)
  unfolding consume_and_zero check_count reset_start_if_empty contents Spec.consume
  consume_and_zero_refines n {b} h v = ground (
    arith,
    clear_lem b.start (b.start + n) b,
    length-contents v,
    length-replicate n empty,
    slice-blit_above b.store b.start (b.start + n) (b.count - n) (replicate n empty),
    drop-slice b.store b.start n b.count,
    slice-zero b.store (b.start + n),
    slice-zero (wiped empty b b.start n) 0,
  )

  pub truncate_and_zero_refines :
      (n : ℕ) {b : Buffer T}
      → n < 2 ^ 64
      → IsValid empty b
      → let (o, b') = truncate_and_zero empty n b in (o, contents b') ≡ Spec.truncate n (contents b)
  unfolding truncate_and_zero check_count reset_start_if_empty contents Spec.truncate
  truncate_and_zero_refines n {b} h v = ground (
    arith,
    clear_lem (b.start + n) (b.start + b.count) b,
    length-contents v,
    slice-blit_below b.store (b.start + n) b.start n (replicate (b.count - n) empty),
    take-slice b.store b.start n b.count,
    slice-zero b.store b.start,
    slice-zero (wiped empty b (b.start + n) (b.count - n)) 0,
  )

  pub consume_right_and_zero_refines :
      (n : ℕ) {b : Buffer T}
      → n < 2 ^ 64
      → IsValid empty b
      → let (o, b') = consume_right_and_zero empty n b in
        (o, contents b') ≡ Spec.consume_right n (contents b)
  unfolding consume_right_and_zero check_count Spec.consume_right Spec.truncate
  consume_right_and_zero_refines n {b} h v =
      ground (arith, length-contents v, truncate_and_zero_refines (b.count - n) (omega arith) v)

  -- A zeroing form is the plain one on the wiped buffer.
  pub consume_and_zero_lem :
      (n : ℕ) {b : Buffer T}
      → n ≤ b.count
      → IsValid empty b
      → consume_and_zero empty n b ≡ consume n (record b { store = wiped empty b b.start n })
  unfolding consume_and_zero consume check_count
  consume_and_zero_lem n {b} h v = ground (arith, clear_lem b.start (b.start + n) b)

  pub truncate_and_zero_lem :
      (n : ℕ) {b : Buffer T}
      → n ≤ b.count
      → IsValid empty b
      → truncate_and_zero empty n b
        ≡ truncate n (record b { store = wiped empty b (b.start + n) (b.count - n) })
  unfolding truncate_and_zero truncate check_count
  truncate_and_zero_lem n {b} h v = ground (arith, clear_lem (b.start + n) (b.start + b.count) b)

  pub consume_and_zero_out :
      (n : ℕ) {b : Buffer T}
      → b.count < n
      → n < 2 ^ 64
      → IsValid empty b
      → (consume_and_zero empty n b).1 ≡ b
  unfolding consume_and_zero check_count
  consume_and_zero_out n {b} h k v = ground arith

  pub truncate_and_zero_out :
      (n : ℕ) {b : Buffer T}
      → b.count < n
      → n < 2 ^ 64
      → IsValid empty b
      → (truncate_and_zero empty n b).1 ≡ b
  unfolding truncate_and_zero check_count
  truncate_and_zero_out n {b} h k v = ground arith

  pub consume_and_zero-IsValid :
      (n : ℕ) {b : Buffer T}
      → n < 2 ^ 64
      → IsValid empty b
      → IsValid empty (consume_and_zero empty n b).1
  consume_and_zero-IsValid n {b} k v = elim (lt_or_le b.count n) [
    | inl h ↦ rw (consume_and_zero_out n h k v) v
    | inr h ↦ rw (consume_and_zero_lem n h v) (consume-IsValid n (wiped-IsValid b.start n v))
  ]

  pub truncate_and_zero-IsValid :
      (n : ℕ) {b : Buffer T}
      → n < 2 ^ 64
      → IsValid empty b
      → IsValid empty (truncate_and_zero empty n b).1
  truncate_and_zero-IsValid n {b} k v = elim (lt_or_le b.count n) [
    | inl h ↦ rw (truncate_and_zero_out n h k v) v
    | inr h ↦
        rw (truncate_and_zero_lem n h v)
          (truncate-IsValid n (wiped-IsValid (b.start + n) (b.count - n) v))
  ]

  -- `ConsumeAndZero` of at most the length of a valid buffer leaves zeros where the removed elements
  -- lay.
  pub consume_and_zero_clears :
      (n : ℕ) {b : Buffer T}
      → n ≤ b.count
      → IsValid empty b
      → slice (consume_and_zero empty n b).1.store b.start n ≡ replicate n empty
  unfolding consume check_count reset_start_if_empty
  consume_and_zero_clears n {b} h v =
      rw (consume_and_zero_lem n h v) (ground (arith, slice-wiped b.start n b))

  pub truncate_and_zero_clears :
      (n : ℕ) {b : Buffer T}
      → n ≤ b.count
      → IsValid empty b
      → slice (truncate_and_zero empty n b).1.store (b.start + n) (b.count - n)
        ≡ replicate (b.count - n) empty
  unfolding truncate check_count reset_start_if_empty
  truncate_and_zero_clears n {b} h v =
      rw (truncate_and_zero_lem n h v) (ground (arith, slice-wiped (b.start + n) (b.count - n) b))

  -- `ResetAndZero` empties the buffer and clears what was live.
  pub reset_and_zero_lem :
      {b : Buffer T}
      → IsValid empty b
      → reset_and_zero empty b
        ≡ (returns tt, reset (record b { store = wiped empty b b.start b.count }))
  unfolding reset_and_zero
  reset_and_zero_lem {b} v = ground (arith, clear_lem b.start (b.start + b.count) b)

  pub reset-IsValid : {b : Buffer T} → IsValid empty b → IsValid empty (reset b)
  unfolding reset
  reset-IsValid v = record {
    small = v.small;
    written = omega arith;
    marked = v.marked;
    based = λ _. refl;
    clean = v.clean;
  }

  wiped-clear :
      {b : Buffer T}
      → IsValid empty b
      → (k : ℕ) → get_or (wiped empty b 0 b.high_water) k empty ≡ empty
  wiped-clear {b} v k = elim (lt_or_le k b.high_water) [
    | inl h ↦ get_or-blit_inside b.store 0 k b.high_water empty (omega arith) (omega arith)
    | inr h ↦ get_or-blit-replicate b.store 0 k b.high_water empty (v.clean k h)
  ]

  all_clear :
      {b : Buffer T} → IsValid empty b → wiped empty b 0 b.high_water ≡ replicate (capacity b) empty
  all_clear {b} v =
      eq_of_clear (wiped empty b 0 b.high_water) 0 empty (omega arith) (λ k _. wiped-clear v k)
      ∙ ap (λ xs. xs ++ replicate (length (wiped empty b 0 b.high_water) - 0) empty)
          (slice-zero (wiped empty b 0 b.high_water) 0)
      ∙ ap (λ n. replicate n empty)
          (omega (arith, length-blit b.store 0 (replicate b.high_water empty)))

  -- `resetAndZeroAll` leaves the buffer as a new one of its capacity, with no value of the past.
  pub reset_and_zero_all_lem :
      {b : Buffer T}
      → IsValid empty b
      → reset_and_zero_all empty b ≡ (
        returns tt,
        record { store = replicate (capacity b) empty; start = 0; count = 0; high_water = 0 },
      )
  unfolding reset_and_zero_all
  reset_and_zero_all_lem {b} v = ground (arith, clear_lem 0 b.high_water b, all_clear v)
