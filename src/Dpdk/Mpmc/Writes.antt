-- ===== src/Dpdk/Mpmc/Writes.antt =====
-- An action of a call writes at most the slots of its own interval, and the log only gets longer.
use go_data_structures.Base.{
  ℕ, ◌+◌, ◌≤◌, ◌<◌, ◌≡◌, ◌⊎◌, inl, inr, refl, sym, arith, Bool-cases, List, [], length, take,
  replicate, length-take, length-replicate,
}
use mathlib.Core.List.{append-nil}
use go_data_structures.Dpdk.Capacity.{IsCapacity}
use go_data_structures.Dpdk.Mpmc.Admission.{Role, producer, consumer}
use go_data_structures.Dpdk.Mpmc.State.{
  Config, capacity, Mem, Request, Pc, reserved, write_slots, read_slots, clear_slots, transfer,
}
use go_data_structures.Dpdk.Mpmc.System.{IsRequest}
use go_data_structures.Dpdk.Mpmc.Intervals.{
  Sees, Lies, InOrder, Move, looks, stores, waits, grants, copies, publishes,
}
use go_data_structures.Dpdk.Mpmc.Slots.{
  slot, length-write_slots, slot-write_slots_after, slot-write_slots_before,
}
use go_data_structures.Dpdk.Mpmc.Contents.{Extends, Spares, Change}

-- A producer that was granted `k` slots has `k` items.
pub granted_items :
    {T : Type 0} (q : Request T) (k : ℕ)
    → IsRequest producer q
    → k ≤ q.requested
    → length (take k q.items) ≡ k
granted_items q k i h = omega (arith, length-take k q.items)

module _ {T : Type 0} (zeroed : T) (cfg : Config) (c : IsCapacity (cfg.mask + 1)) (m : Mem T)
    (a : InOrder (capacity cfg) producer m) (b : InOrder (capacity cfg) consumer m)
    (full : length m.entries ≡ capacity cfg) where
  -- A write to an interval in use spares the other slots in use.
  write_slots-spared :
      (s : ℕ) (items : List T)
      → m.consumers.tail ≤ s
      → s + length items ≤ m.producers.head
      → (x : ℕ) → m.consumers.tail ≤ x
      → x < m.producers.head
      → (x < s) ⊎ (s + length items ≤ x)
      → slot zeroed cfg (write_slots cfg s items m.entries) x ≡ slot zeroed cfg m.entries x
  write_slots-spared s items l u x f g (inl e) =
      slot-write_slots_before zeroed cfg c m.entries full s items (omega arith) x e (omega arith)
  write_slots-spared s items l u x f g (inr e) =
      slot-write_slots_after zeroed cfg c m.entries full s items (omega arith) x e (omega arith)

  module _ (q : Request T) (s k n : ℕ) where
    pub transfer-Spares :
        (r : Role)
        → Sees r m (reserved q s k n)
        → Lies r m (reserved q s k n)
        → Spares zeroed cfg m (transfer zeroed r cfg q s k m).1 (reserved q s k n)
    unfolding transfer read_slots clear_slots
    transfer-Spares producer z l x f g d =
        let e = granted_items q k z.0 z.2 in
        write_slots-spared s (take k q.items) (omega (arith, l z.1)) (omega (arith, e, l z.1)) x f g
          (rw e (d z.1))
    transfer-Spares consumer z l x f g d = elim (Bool-cases cfg.clear_on_dequeue) [
      | inl t ↦
          let e = length-replicate k zeroed in
          rw t (
            write_slots-spared s (replicate k zeroed) ((l z.1).0) (omega (arith, e, l z.1)) x f g
              (rw e (d z.1)))
      | inr t ↦ rw t refl
    ]

    pub length-transfer :
        (r : Role)
        → Sees r m (reserved q s k n)
        → Lies r m (reserved q s k n)
        → length (transfer zeroed r cfg q s k m).1.entries ≡ capacity cfg
    unfolding transfer read_slots clear_slots
    length-transfer producer z l =
        length-write_slots zeroed cfg c m.entries full s (take k q.items)
          (omega (arith, granted_items q k z.0 z.2, l z.1))
    length-transfer consumer z l = elim (Bool-cases cfg.clear_on_dequeue) [
      | inl t ↦ rw t (
          length-write_slots zeroed cfg c m.entries full s (replicate k zeroed)
            (omega (arith, length-replicate k zeroed, l z.1)))
      | inr t ↦ rw t full
    ]

  same_log : Extends zeroed cfg m m
  same_log = ([], sym (append-nil m.log))

  Move-Extends :
      (r : Role) {m' : Mem T} {p p' : Pc T} → Move zeroed cfg r m p m' p' → Extends zeroed cfg m m'
  unfolding transfer
  Move-Extends r (looks e e' f) = same_log
  Move-Extends producer (stores h g e e' f) = same_log
  Move-Extends consumer (stores h g e e' f) = same_log
  Move-Extends r waits = same_log
  Move-Extends producer (grants {q} k n i h h' f) = (take k q.items, refl)
  Move-Extends consumer (grants k n i h h' f) = same_log
  Move-Extends producer copies = same_log
  Move-Extends consumer copies = same_log
  Move-Extends producer (publishes h e) = same_log
  Move-Extends consumer (publishes h e) = same_log

  Move-Spares :
      (r : Role) {m' : Mem T} {p p' : Pc T}
      → Sees r m p
      → Lies r m p
      → Move zeroed cfg r m p m' p'
      → Spares zeroed cfg m m' p
  Move-Spares r z l (looks e e' f) x _ _ _ = refl
  Move-Spares producer z l (stores h g e e' f) x _ _ _ = refl
  Move-Spares consumer z l (stores h g e e' f) x _ _ _ = refl
  Move-Spares r z l waits x _ _ _ = refl
  Move-Spares producer z l (grants k n i h h' f) x _ _ _ = refl
  Move-Spares consumer z l (grants k n i h h' f) x _ _ _ = refl
  Move-Spares r z l (copies {q} {s} {k} {n}) x f g d = transfer-Spares q s k n r z l x f g d
  Move-Spares producer z l (publishes h e) x _ _ _ = refl
  Move-Spares consumer z l (publishes h e) x _ _ _ = refl

  pub Move-Change :
      (r : Role) {m' : Mem T} {p p' : Pc T}
      → length m.log ≡ m.producers.head
      → Sees r m p
      → Lies r m p
      → Move zeroed cfg r m p m' p'
      → Change zeroed cfg p m m'
  Move-Change r {m'} {p} {p'} logged z l mv = record {
    consumers_order = omega arith;
    producers_order = omega arith;
    logged = logged;
    extends = Move-Extends r mv;
    spares = Move-Spares r z l mv;
  }
