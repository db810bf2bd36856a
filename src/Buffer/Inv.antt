-- ===== src/Buffer/Inv.antt =====
-- The representation invariant of `Buffer[T]`, as the comments of its fields state it.
use go_data_structures.Base.{
  ℕ, ◌+◌, ◌^◌, ◌≤◌, ◌<◌, ◌≡◌, List, arith, length, get_or, slice, length-slice,
}
use go_data_structures.Base.Go.{Outcome}
use go_data_structures.Buffer.Defs.{Buffer, capacity}

module _ {T : Type 0} (empty : T) where
  pub record IsValid (b : Buffer T) : Type 0 where
    pub small : capacity b < 2 ^ 63
    pub written : b.start + b.count ≤ b.high_water
    pub marked : b.high_water ≤ capacity b
    pub based : b.count ≡ 0 → b.start ≡ 0
    -- Every element at or above the mark is zero.
    pub clean : (i : ℕ) → b.high_water ≤ i → get_or b.store i empty ≡ empty

-- The abstract view: the live elements, oldest first.
unfoldable pub contents : {T : Type 0} → Buffer T → List T
contents b = slice b.store b.start b.count

pub length-contents :
    {T : Type 0} {empty : T} {b : Buffer T} → IsValid empty b → length (contents b) ≡ b.count
unfolding contents
length-contents {b} v = length-slice b.store b.start b.count (omega arith)

-- A call on `b` that gave `r` did what `reply` says, and kept the representation.
pub record Refines {T : Type 0} (empty : T) (b : Buffer T) (reply : Outcome (Unit {0}) × List T)
    (r : Outcome (Unit {0}) × Buffer T) : Type 0 where
  pub valid : IsValid empty r.1
  pub same_capacity : capacity r.1 ≡ capacity b
  pub answer : ◌≡◌ {A = Outcome (Unit {0}) × List T} (r.0, contents r.1) reply
