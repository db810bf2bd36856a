-- ===== src/Dpdk/Mpmc/Slots.antt =====
-- The slots of positions: what a copy into an interval writes, and what it leaves.
use Prim.Native.Nat.{bit_and}
use go_data_structures.Base.{
  ℕ, ◌+◌, ◌-◌, ◌%◌, ◌≤◌, ◌<◌, ◌≡◌, ◌≢◌, refl, sym, ap, ◌∙◌, arith, List, [], ◌∷◌, length, get_or,
  true, false, ltb, if◌then◌else◌, lt_or_le, inl, inr, blit, blit-nil, min,
}
use native.Mathlib.Nat.{mod-lt, add-mod_right}
use go_data_structures.Dpdk.Capacity.{IsCapacity, capacity_bounds, index_lem, wrap_index}
use go_data_structures.Dpdk.Window.{mod_shift}
use go_data_structures.Dpdk.Copies.{copy_in, length-copy_in, get_or-copy_in_at, get_or-copy_in_past}
use go_data_structures.Dpdk.Mpmc.State.{Config, capacity, word, write_slots}
use go_data_structures.Dpdk.Mpmc.Actions.{capacity_lem}

-- Two positions less than a round apart have different slots.
pub slots_differ : (bound x y : ℕ) → x < y → y < x + bound → x % bound ≢ y % bound
slots_differ bound x y h k e =
    let d : x + (y - x) ≡ y = omega arith in
    let shift = rw d at (mod_shift bound x (y - x) (omega arith) (omega arith)) in
    let low : x % bound < bound = mod-lt x (omega arith) in ground (arith, shift, low)

pub index :
    (cfg : Config)
    → IsCapacity (cfg.mask + 1)
    → (start : ℕ) → bit_and (word start) cfg.mask ≡ start % capacity cfg
index cfg c start =
    let e : cfg.mask + 1 - 1 ≡ cfg.mask = omega arith in
    rw e at (index_lem c (word start))
    ∙ wrap_index c start
    ∙ ap (λ b. start % b) (sym (capacity_lem cfg c))

-- The element at a position's slot.
abbrev pub slot : {T : Type 0} → T → Config → List T → ℕ → T
slot zeroed cfg entries x = get_or entries (x % capacity cfg) zeroed

module _ {T : Type 0} (zeroed : T) (cfg : Config) (c : IsCapacity (cfg.mask + 1)) where
  some_slots : 0 < capacity cfg
  some_slots = omega (arith, capacity_lem cfg c, capacity_bounds c)

  -- A write of a batch, by its fast path for one item or not, is the copy in two parts.
  pub write_slots_lem :
      (start : ℕ) (items entries : List T)
      → write_slots cfg start items entries
        ≡ copy_in entries (capacity cfg) (start % capacity cfg) items
  unfolding write_slots copy_in
  write_slots_lem start [] entries = rw (index cfg c start) refl
  write_slots_lem start (x ∷ []) entries =
      let one : min 1 (capacity cfg - start % capacity cfg) ≡ 1 =
        omega (arith, mod-lt start some_slots) in
      rw (index cfg c start, one) (sym (blit-nil (blit entries (start % capacity cfg) (x ∷ [])) 0))
  write_slots_lem start (x ∷ y ∷ items) entries = rw (index cfg c start) refl

  module _ (entries : List T) (full : length entries ≡ capacity cfg) (start : ℕ) (items : List T)
      (fits : length items ≤ capacity cfg) where
    pub length-write_slots : length (write_slots cfg start items entries) ≡ capacity cfg
    length-write_slots =
        ap length (write_slots_lem start items entries)
        ∙ length-copy_in zeroed entries (capacity cfg) (start % capacity cfg) full
            (mod-lt start some_slots) items

    -- The `k`-th item is at the `k`-th position.
    pub slot-write_slots_at :
        (k : ℕ)
        → k < length items
        → slot zeroed cfg (write_slots cfg start items entries) (start + k) ≡ get_or items k zeroed
    slot-write_slots_at k h =
        rw
          (
            write_slots_lem start items entries,
            mod_shift (capacity cfg) start k some_slots (omega arith),
          )
          (get_or-copy_in_at zeroed entries (capacity cfg) (start % capacity cfg) full
            (mod-lt start some_slots) items fits k h)

    -- The positions behind the interval, within a round, keep their slots, and so do those before it.
    pub slot-write_slots_after :
        (x : ℕ)
        → start + length items ≤ x
        → x < start + capacity cfg
        → slot zeroed cfg (write_slots cfg start items entries) x ≡ slot zeroed cfg entries x
    slot-write_slots_after x h l =
        let d : start + (x - start) ≡ x = omega arith in
        let shift = rw d at (mod_shift (capacity cfg) start (x - start) some_slots (omega arith)) in
        rw (write_slots_lem start items entries, shift)
          (get_or-copy_in_past zeroed entries (capacity cfg) (start % capacity cfg) full
            (mod-lt start some_slots) items fits (x - start) (omega arith) (omega arith))

    pub slot-write_slots_before :
        (x : ℕ)
        → x < start
        → start + length items ≤ x + capacity cfg
        → slot zeroed cfg (write_slots cfg start items entries) x ≡ slot zeroed cfg entries x
    slot-write_slots_before x h l =
        let round_trip = add-mod_right x (capacity cfg) in
        rw round_trip at (slot-write_slots_after (x + capacity cfg) l (omega arith))

    -- In an array of a valid capacity, a write of at most a capacity of items from a position on, by
    -- its fast path for one item or not, around the end of the array or not, keeps the array's
    -- length, puts the items, in their order, into the slots of the positions from that one on, and
    -- leaves the slots of the other positions of the round.
    pub slots_written :
        (x : ℕ)
        → start ≤ x
        → x < start + capacity cfg
        → (length (write_slots cfg start items entries) ≡ capacity cfg)
          × (slot zeroed cfg (write_slots cfg start items entries) x ≡ (
              if ltb (x - start) (length items)
              then get_or items (x - start) zeroed
              else slot zeroed cfg entries x))
    slots_written x h l = (
      length-write_slots,
      elim (lt_or_le (x - start) (length items)) [
        | inl k ↦
            let d : start + (x - start) ≡ x = omega arith in
            let test : ltb (x - start) (length items) ≡ true = ground arith in
            rw test (rw d at (slot-write_slots_at (x - start) k))
        | inr k ↦
            let test : ltb (x - start) (length items) ≡ false = ground arith in
            rw test (slot-write_slots_after x (omega arith) l)
      ],
    )
