-- ===== src/Buffer/Growth.antt =====
-- What `Grow` and `GrowAndZero` do to the bounded list.
use go_data_structures.Base.{
  ℕ, ◌+◌, ◌^◌, ◌≤◌, ◌<◌, ◌≡◌, refl, List, true, false, arith, length, inl, inr, lt_or_le, take_all,
  replicate, length-replicate, is_negative, ltb, if◌then◌else◌,
}
use go_data_structures.Base.Go.{Go, returns, panics, ◌>>=◌, modify, negative_grow, grow_exceeds}
use go_data_structures.Buffer.Defs.{Buffer, capacity, write_span, grow, grow_and_zero}
use go_data_structures.Buffer.Spec
use go_data_structures.Buffer.Inv.{IsValid, contents, length-contents, Refines}
use go_data_structures.Buffer.Room.{extended-Refines, room_for, extended, HasRoom, room_for-HasRoom}
use go_data_structures.Buffer.Grow.{
  zero_room_for, zero_room_for-HasRoom, grow_fits, grow_and_zero_fits, grow_and_zero_exceeds,
  grow_exceeds_lem, grow_with_negative,
}

-- A caller of `Grow` that stores `vs` in the slice it is given.
unfoldable pub fill : {T : Type 0} → T → List T → Go (Buffer T) (Unit {0})
fill empty vs = do s ← grow empty (length vs); modify (write_span s vs)

-- The calls, their slices unused.
unfoldable pub grow_unused : {T : Type 0} → T → ℕ → Go (Buffer T) (Unit {0})
grow_unused empty n = do s ← grow empty n; modify (λ b. b)

unfoldable pub grow_zeros : {T : Type 0} → T → ℕ → Go (Buffer T) (Unit {0})
grow_zeros empty n = do s ← grow_and_zero empty n; modify (λ b. b)

module _ {T : Type 0} (empty : T) {b : Buffer T} (v : IsValid empty b) where
  fill_exceeds :
      (vs : List T)
      → capacity b < b.count + length vs
      → b.count + length vs < 2 ^ 63
      → fill empty vs b ≡ (panics grow_exceeds, b)
  unfolding fill
  fill_exceeds vs h k = rw (grow_exceeds_lem empty v (length vs) h k)

  zeros_exceeds :
      (n : ℕ)
      → capacity b < b.count + n
      → b.count + n < 2 ^ 63
      → grow_zeros empty n b ≡ (panics grow_exceeds, b)
  unfolding grow_zeros
  zeros_exceeds n h k = rw (grow_and_zero_exceeds empty v n h k)

  zeros_fits :
      (n : ℕ)
      → b.count + n ≤ capacity b
      → grow_zeros empty n b ≡ (returns tt, extended (zero_room_for empty b n) (replicate n empty))
  unfolding grow_zeros
  zeros_fits n h = rw (grow_and_zero_fits empty v n h)

  pub fill_fits :
      (vs : List T)
      → b.count + length vs ≤ capacity b
      → fill empty vs b ≡ (returns tt, extended (room_for b (length vs)) vs)
  unfolding fill write_span
  fill_fits vs h =
      rw (grow_fits empty v (length vs) h) (rw (take_all (length vs) vs (omega arith)) refl)

  fits_test :
      (n : ℕ) → b.count + n ≤ capacity b → ltb (capacity b) (length (contents b) + n) ≡ false
  fits_test n h = ground (arith, length-contents v)

  exceeds-Refines :
      (n : ℕ) (xs : List T)
      → capacity b < b.count + n
      → Refines empty b
          (if ltb (capacity b) (length (contents b) + n)
            then (panics grow_exceeds, contents b)
            else (returns tt, xs))
          (panics grow_exceeds, b)
  exceeds-Refines n xs h = record {
    valid = v;
    same_capacity = refl;
    answer = ground (arith, length-contents v);
  }

  -- `Grow`, with the values that the caller then stores, adds them at the back, or panics and
  -- changes nothing.
  pub fill-Refines :
      (vs : List T)
      → b.count + length vs < 2 ^ 63
      → Refines empty b (Spec.grow (capacity b) vs (contents b)) (fill empty vs b)
  unfolding Spec.grow
  fill-Refines vs k = elim (lt_or_le (capacity b) (b.count + length vs)) [
    | inl h ↦ rw (fill_exceeds vs h k) (exceeds-Refines (length vs) _ h)
    | inr h ↦
        rw (fill_fits vs h, fits_test (length vs) h)
          (extended-Refines empty vs (room_for-HasRoom empty v (length vs) h))
  ]

  zeros_room :
      (n : ℕ) (h : b.count + length (replicate n empty) ≤ capacity b)
      → HasRoom empty v (length (replicate n empty)) h (zero_room_for empty b n)
  zeros_room n h = record {
    valid = r.valid;
    room = omega (arith, r.room, length-replicate n empty);
    same_count = r.same_count;
    same_capacity = r.same_capacity;
    same_contents = r.same_contents;
  }
    where
      r : HasRoom empty v n (omega (arith, length-replicate n empty)) (zero_room_for empty b n)
      r = zero_room_for-HasRoom empty v n (omega (arith, length-replicate n empty))

  negative-Refines : Refines empty b (panics negative_grow, contents b) (panics negative_grow, b)
  negative-Refines = record { valid = v; same_capacity = refl; answer = refl }

  -- `Grow` with a negative count panics and changes nothing.
  pub grow_unused-Refines :
      (n : ℕ)
      → 2 ^ 63 ≤ n
      → Refines empty b (panics negative_grow, contents b) (grow_unused empty n b)
  unfolding grow_unused grow
  grow_unused-Refines n h = rw (grow_with_negative empty v n false h) negative-Refines

  zeros_negative : (n : ℕ) → 2 ^ 63 ≤ n → grow_zeros empty n b ≡ (panics negative_grow, b)
  unfolding grow_zeros grow_and_zero
  zeros_negative n h = rw (grow_with_negative empty v n true h)

  added_zeros-Refines :
      (n : ℕ)
      → b.count + n < 2 ^ 63
      → Refines empty b
          (Spec.grow (capacity b) (replicate n empty) (contents b))
          (grow_zeros empty n b)
  unfolding Spec.grow
  added_zeros-Refines n k = elim (lt_or_le (capacity b) (b.count + n)) [
    | inl h ↦ rw (zeros_exceeds n h k, length-replicate n empty) (exceeds-Refines n _ h)
    | inr h ↦
        rw
          (
            zeros_fits n h,
            fits_test (length (replicate n empty)) (omega (arith, length-replicate n empty)),
          )
          (extended-Refines empty (replicate n empty)
            (zeros_room n (omega (arith, length-replicate n empty))))
  ]

  -- `GrowAndZero` adds zeros at the back, or panics and changes nothing, also for a negative count.
  pub grow_zeros-Refines :
      (n : ℕ)
      → (n < 2 ^ 63 → b.count + n < 2 ^ 63)
      → Refines empty b (Spec.grow_zeroed (capacity b) empty n (contents b)) (grow_zeros empty n b)
  unfolding Spec.grow_zeroed
  grow_zeros-Refines n k = elim (lt_or_le n (2 ^ 63)) [
    | inl h ↦
        let test : is_negative n ≡ false = ground arith in
        rw test (unfold Spec.grow in added_zeros-Refines n (k h))
    | inr h ↦
        let test : is_negative n ≡ true = ground arith in
        rw (test, zeros_negative n h) negative-Refines
  ]
