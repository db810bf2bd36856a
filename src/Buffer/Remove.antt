-- ===== src/Buffer/Remove.antt =====
-- Removal from either end: `Truncate`, `Consume` and `ConsumeRight` against the list that they
-- promise.
use go_data_structures.Base.{ℕ, ◌+◌, ◌-◌, ◌^◌, ◌<◌, ◌≡◌, arith, slice-zero, drop-slice, take-slice}
use go_data_structures.Buffer.Defs.{
  Buffer, check_count, reset_start_if_empty, truncate, consume, consume_right,
}
use go_data_structures.Buffer.Spec
use go_data_structures.Buffer.Inv.{IsValid, contents, length-contents}

module _ {T : Type 0} {empty : T} where
  pub consume-IsValid : (n : ℕ) {b : Buffer T} → IsValid empty b → IsValid empty (consume n b).1
  unfolding consume check_count reset_start_if_empty
  consume-IsValid n {b} v = record {
    small = ground arith;
    written = ground arith;
    marked = ground arith;
    based = ground arith;
    clean = λ i h. ground (arith, v.clean i);
  }

  pub truncate-IsValid : (n : ℕ) {b : Buffer T} → IsValid empty b → IsValid empty (truncate n b).1
  unfolding truncate check_count reset_start_if_empty
  truncate-IsValid n {b} v = record {
    small = ground arith;
    written = ground arith;
    marked = ground arith;
    based = ground arith;
    clean = λ i h. ground (arith, v.clean i);
  }

  -- `Consume` drops from the front, or panics and changes nothing.
  pub consume_refines :
      (n : ℕ) {b : Buffer T}
      → n < 2 ^ 64
      → IsValid empty b
      → let (o, b') = consume n b in (o, contents b') ≡ Spec.consume n (contents b)
  unfolding consume check_count reset_start_if_empty contents Spec.consume
  consume_refines n {b} h v = ground (
    arith,
    length-contents v,
    drop-slice b.store b.start n b.count,
    slice-zero b.store 0,
    slice-zero b.store (b.start + n),
  )

  pub truncate_refines :
      (n : ℕ) {b : Buffer T}
      → n < 2 ^ 64
      → IsValid empty b
      → let (o, b') = truncate n b in (o, contents b') ≡ Spec.truncate n (contents b)
  unfolding truncate check_count reset_start_if_empty contents Spec.truncate
  truncate_refines n {b} h v = ground (
    arith,
    length-contents v,
    take-slice b.store b.start n b.count,
    slice-zero b.store 0,
    slice-zero b.store b.start,
  )

  pub consume_right_refines :
      (n : ℕ) {b : Buffer T}
      → n < 2 ^ 64
      → IsValid empty b
      → let (o, b') = consume_right n b in (o, contents b') ≡ Spec.consume_right n (contents b)
  unfolding consume_right truncate check_count reset_start_if_empty contents Spec.consume_right
  consume_right_refines n {b} h v = ground (
    arith,
    length-contents v,
    take-slice b.store b.start (b.count - n) b.count,
    slice-zero b.store 0,
    slice-zero b.store b.start,
  )
