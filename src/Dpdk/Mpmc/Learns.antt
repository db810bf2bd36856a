-- ===== src/Dpdk/Mpmc/Learns.antt =====
-- What the call that acts knows of the data afterwards.
use go_data_structures.Base.{
  ℕ, ◌+◌, ◌%◌, ◌≤◌, ◌<◌, ◌≡◌, refl, sym, ap, ◌∙◌, arith, Bool, true, false, List, [], ◌∷◌, length,
  take, slice, slice-zero, get_or, get_or-append_right, get_or-slice, length-slice, ◌==◌,
  if◌then◌else◌,
}
use go_data_structures.Dpdk.Capacity.{IsCapacity, capacity_bounds}
use go_data_structures.Dpdk.Window.{window, window_eq}
use go_data_structures.Dpdk.Copies.{copy_out, copy_out_lem}
use go_data_structures.Dpdk.Mpmc.Admission.{Role, producer, consumer}
use go_data_structures.Dpdk.Mpmc.State.{
  Config, capacity, Mem, Pc, idle, calling, at_head, loading, storing, deciding, reserved, copied,
  returned, read_slots, transfer,
}
use go_data_structures.Dpdk.Mpmc.Intervals.{
  Blank, Sees, Lies, InOrder, Move, looks, stores, waits, grants, copies, publishes,
}
use go_data_structures.Dpdk.Mpmc.Actions.{capacity_lem}
use go_data_structures.Dpdk.Mpmc.Slots.{slot, index, slot-write_slots_at}
use go_data_structures.Dpdk.Mpmc.Contents.{Held, Knows}
use go_data_structures.Dpdk.Mpmc.Writes.{granted_items}

module _ {T : Type 0} (zeroed : T) (cfg : Config) where
  -- A call that holds nothing knows nothing.
  Blank-Knows : (r : Role) (m : Mem T) (p : Pc T) → Blank p → Knows zeroed cfg r m p
  Blank-Knows producer m idle b = tt
  Blank-Knows producer m (calling q) b = tt
  Blank-Knows producer m (at_head q h) b = tt
  Blank-Knows producer m (loading q h p) b = tt
  Blank-Knows producer m (storing q h p) b = tt
  Blank-Knows producer m (deciding q h p) b = tt
  Blank-Knows producer m (reserved q s k n) b = absurd b
  Blank-Knows producer m (copied s k n out) b = absurd b
  Blank-Knows producer m (returned s k n out) b = tt
  Blank-Knows consumer m idle b = tt
  Blank-Knows consumer m (calling q) b = tt
  Blank-Knows consumer m (at_head q h) b = tt
  Blank-Knows consumer m (loading q h p) b = tt
  Blank-Knows consumer m (storing q h p) b = tt
  Blank-Knows consumer m (deciding q h p) b = tt
  Blank-Knows consumer m (reserved q s k n) b = absurd b
  Blank-Knows consumer m (copied s k n out) b = absurd b
  Blank-Knows consumer m (returned s k n out) (e, d) =
      (λ h. absurd (omega arith), d ∙ sym (slice-zero m.log s) ∙ ap (slice m.log s) (sym e))

  module _ (c : IsCapacity (cfg.mask + 1)) where
    -- The reader finds the log's items, whichever path it takes.
    read_slots_lem :
        (s k : ℕ) (entries log : List T)
        → length entries ≡ capacity cfg
        → k ≤ capacity cfg
        → s + k ≤ length log
        → Held zeroed cfg entries log s k
        → (read_slots zeroed cfg s k entries).0 ≡ slice log s k
    unfolding read_slots window
    read_slots_lem s k entries log full l u h =
        rw (index cfg c s) (choose (k == 1) (λ e. single (ground arith)) batch)
      where
        items : length (slice log s k) ≡ k
        items = length-slice log s k u

        there : window zeroed entries (capacity cfg) s (length (slice log s k)) ≡ slice log s k
        there = window_eq zeroed entries (slice log s k) (capacity cfg) s λ j f.
            h j (omega (arith, items))
            ∙ sym (get_or-slice log s k j (s + j) zeroed (omega (arith, items)) refl)

        found : window zeroed entries (capacity cfg) s k ≡ slice log s k
        found = ap (window zeroed entries (capacity cfg) s) (sym items) ∙ there

        batch : copy_out entries (capacity cfg) (s % capacity cfg) k ≡ slice log s k
        batch =
            copy_out_lem zeroed entries (capacity cfg) full
              (omega (arith, capacity_lem cfg c, capacity_bounds c)) s k l
            ∙ found

        single : k ≡ 1 → get_or entries (s % capacity cfg) zeroed ∷ [] ≡ slice log s k
        single e = ap (window zeroed entries (capacity cfg) s) (sym e) ∙ found

        choose :
            (t : Bool)
            → (t ≡ true → get_or entries (s % capacity cfg) zeroed ∷ [] ≡ slice log s k)
            → copy_out entries (capacity cfg) (s % capacity cfg) k ≡ slice log s k
            → (if t
                then get_or entries (s % capacity cfg) zeroed ∷ []
                else copy_out entries (capacity cfg) (s % capacity cfg) k)
              ≡ slice log s k
        choose true f g = f refl
        choose false f g = g

    module _ (m : Mem T) (a : InOrder (capacity cfg) producer m)
        (b : InOrder (capacity cfg) consumer m) (full : length m.entries ≡ capacity cfg)
        (logged : length m.log ≡ m.producers.head)
        (stored : (x : ℕ)
          → m.consumers.head ≤ x
          → x < m.producers.tail
          → slot zeroed cfg m.entries x ≡ get_or m.log x zeroed) where
      pub Move-Knows :
          (r : Role) {m' : Mem T} {p p' : Pc T}
          → Sees r m p
          → Lies r m p
          → Knows zeroed cfg r m p
          → Move zeroed cfg r m p m' p'
          → Knows zeroed cfg r m' p'
      unfolding transfer
      Move-Knows r {m' = m'} z l h (looks {pc' = p'} e e' f) = Blank-Knows r m' p' e'
      Move-Knows r {m' = m'} z l h (stores {pc' = p'} _ g e e' f) = Blank-Knows r m' p' e'
      Move-Knows r z l h waits = h
      Move-Knows producer z l h (grants {q} k n i g g' f) = λ j d.
          get_or-append_right m.log (take k q.items) (m.producers.head + j) j zeroed
            (omega (arith, logged))
      Move-Knows consumer z l h (grants k n i g g' f) =
          λ j d. stored (m.consumers.head + j) (omega arith) (omega arith)
      Move-Knows producer z l h (copies {q} {s} {k} {n}) = λ j d.
          let e = granted_items q k z.0 z.2 in
          slot-write_slots_at zeroed cfg c m.entries full s (take k q.items)
            (omega (arith, e, l z.1)) j (omega (arith, e))
          ∙ sym (h j d)
      Move-Knows consumer z l h (copies {q} {s} {k} {n}) =
          read_slots_lem s k m.entries m.log full (omega (arith, l z.1))
            (omega (arith, l z.1, logged)) h
      Move-Knows producer z l h (publishes g e) = tt
      Move-Knows consumer z l h (publishes g e) = ((λ f. omega (arith, l g, logged)), h)
