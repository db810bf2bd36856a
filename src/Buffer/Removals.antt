-- ===== src/Buffer/Removals.antt =====
-- Every removal, plain or zeroing, refines the removal from a list.
use go_data_structures.Base.{
  ℕ, ◌+◌, ◌-◌, ◌^◌, ◌≤◌, ◌<◌, ◌≡◌, refl, ◌∙◌, arith, lt_or_le, inl, inr, replicate, length-blit,
}
use go_data_structures.Buffer.Defs.{
  Buffer, check_count, reset_start_if_empty, consume, consume_right, truncate, consume_and_zero,
  consume_right_and_zero, truncate_and_zero,
}
use go_data_structures.Buffer.Spec
use go_data_structures.Buffer.Inv.{IsValid, contents, Refines}
use go_data_structures.Buffer.Remove
use go_data_structures.Buffer.Clear
use go_data_structures.Buffer.Clear.{wiped, wiped-IsValid}

module _ {T : Type 0} {empty : T} {b : Buffer T} (v : IsValid empty b) where
  -- The removals keep the array, so its capacity.
  pub consume-Refines :
      (n : ℕ) → n < 2 ^ 64 → Refines empty b (Spec.consume n (contents b)) (consume n b)
  unfolding consume check_count reset_start_if_empty
  consume-Refines n h = record {
    valid = Remove.consume-IsValid n v;
    same_capacity = ground arith;
    answer = Remove.consume_refines n h v;
  }

  pub truncate-Refines :
      (n : ℕ) → n < 2 ^ 64 → Refines empty b (Spec.truncate n (contents b)) (truncate n b)
  unfolding truncate check_count reset_start_if_empty
  truncate-Refines n h = record {
    valid = Remove.truncate-IsValid n v;
    same_capacity = ground arith;
    answer = Remove.truncate_refines n h v;
  }

  consume_right_in : (n : ℕ) → n ≤ b.count → consume_right n b ≡ truncate (b.count - n) b
  unfolding consume_right check_count
  consume_right_in n h = ground arith

  consume_right_out : (n : ℕ) → b.count < n → n < 2 ^ 64 → (consume_right n b).1 ≡ b
  unfolding consume_right check_count
  consume_right_out n h k = ground arith

  pub consume_right-Refines :
      (n : ℕ) → n < 2 ^ 64 → Refines empty b (Spec.consume_right n (contents b)) (consume_right n b)
  consume_right-Refines n k = elim (lt_or_le b.count n) [
    | inl h ↦ record {
      valid = rw (consume_right_out n h k) v;
      same_capacity = rw (consume_right_out n h k) refl;
      answer = Remove.consume_right_refines n k v;
    }
    | inr h ↦ record {
      valid = rw (consume_right_in n h) (Remove.truncate-IsValid (b.count - n) v);
      same_capacity =
          rw (consume_right_in n h) ((truncate-Refines (b.count - n) (omega arith)).same_capacity);
      answer = Remove.consume_right_refines n k v;
    }
  ]

module _ {T : Type 0} (empty : T) {b : Buffer T} (v : IsValid empty b) where
  pub consume_and_zero-Refines :
      (n : ℕ)
      → n < 2 ^ 64
      → Refines empty b (Spec.consume n (contents b)) (consume_and_zero empty n b)
  consume_and_zero-Refines n k = record {
    valid = Clear.consume_and_zero-IsValid empty n k v;
    same_capacity = elim (lt_or_le b.count n) [
      | inl h ↦ rw (Clear.consume_and_zero_out empty n h k v)
      | inr h ↦ rw (Clear.consume_and_zero_lem empty n h v) (
          (consume-Refines (wiped-IsValid empty b.start n v) n k).same_capacity
          ∙ length-blit b.store b.start (replicate n empty))
    ];
    answer = Clear.consume_and_zero_refines empty n k v;
  }

  pub truncate_and_zero-Refines :
      (n : ℕ)
      → n < 2 ^ 64
      → Refines empty b (Spec.truncate n (contents b)) (truncate_and_zero empty n b)
  truncate_and_zero-Refines n k = record {
    valid = Clear.truncate_and_zero-IsValid empty n k v;
    same_capacity = elim (lt_or_le b.count n) [
      | inl h ↦ rw (Clear.truncate_and_zero_out empty n h k v)
      | inr h ↦ rw (Clear.truncate_and_zero_lem empty n h v) (
          (truncate-Refines (wiped-IsValid empty (b.start + n) (b.count - n) v) n k).same_capacity
          ∙ length-blit b.store (b.start + n) (replicate (b.count - n) empty))
    ];
    answer = Clear.truncate_and_zero_refines empty n k v;
  }

  right_in :
      (n : ℕ)
      → n ≤ b.count
      → consume_right_and_zero empty n b ≡ truncate_and_zero empty (b.count - n) b
  unfolding consume_right_and_zero check_count
  right_in n h = ground arith

  right_out : (n : ℕ) → b.count < n → n < 2 ^ 64 → (consume_right_and_zero empty n b).1 ≡ b
  unfolding consume_right_and_zero check_count
  right_out n h k = ground arith

  pub consume_right_and_zero-Refines :
      (n : ℕ)
      → n < 2 ^ 64
      → Refines empty b (Spec.consume_right n (contents b)) (consume_right_and_zero empty n b)
  consume_right_and_zero-Refines n k = elim (lt_or_le b.count n) [
    | inl h ↦ record {
      valid = rw (right_out n h k) v;
      same_capacity = rw (right_out n h k) refl;
      answer = Clear.consume_right_and_zero_refines empty n k v;
    }
    | inr h ↦ record {
      valid = rw (right_in n h) ((truncate_and_zero-Refines (b.count - n) (omega arith)).valid);
      same_capacity =
          rw (right_in n h) ((truncate_and_zero-Refines (b.count - n) (omega arith)).same_capacity);
      answer = Clear.consume_right_and_zero_refines empty n k v;
    }
  ]
