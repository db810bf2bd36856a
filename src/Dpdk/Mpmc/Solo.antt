-- ===== src/Dpdk/Mpmc/Solo.antt =====
-- One call's view of a state in which no other call acts.
use go_data_structures.Base.{
  ℕ, ◌+◌, ◌^◌, ◌≤◌, ◌<◌, ◌≡◌, refl, arith, Bool-cases, inl, inr, length, get_or, ◌==◌,
}
use go_data_structures.Dpdk.Capacity.{IsCapacity, capacity_bounds}
use go_data_structures.Dpdk.Mpmc.Admission.{
  Role, producer, consumer, Verdict, again, refused, granted, must_load, space, admit,
}
use go_data_structures.Dpdk.Mpmc.State.{
  Config, capacity, Mem, Request, Pc, idle, calling, at_head, loading, storing, deciding, reserved,
  copied, returned, word, lane, other, advance, conclude, transfer, reserve,
}
use go_data_structures.Dpdk.Mpmc.System.{IsFresh}
use go_data_structures.Dpdk.Mpmc.Intervals.{Sees, Lies, InOrder, Move}
use go_data_structures.Dpdk.Mpmc.Actions.{capacity_lem}
use go_data_structures.Dpdk.Mpmc.Moves.{Move-InOrder, Move-Sees, Move-Lies}
use go_data_structures.Dpdk.Mpmc.Slots.{slot}
use go_data_structures.Dpdk.Mpmc.Contents.{Knows}
use go_data_structures.Dpdk.Mpmc.Learns.{Move-Knows}
use go_data_structures.Dpdk.Mpmc.Fifo.{Move-full, Move-logged, Move-stored}

module _ {T : Type 0} (zeroed : T) (cfg : Config) (c : IsCapacity (cfg.mask + 1)) where
  -- What holds of a call and the memory, of the invariants of all calls.
  pub record Solo (r : Role) (m : Mem T) (p : Pc T) : Type 0 where
    pub producers : InOrder (capacity cfg) producer m
    pub consumers : InOrder (capacity cfg) consumer m
    pub sees : Sees r m p
    pub lies : Lies r m p
    pub full : length m.entries ≡ capacity cfg
    pub logged : length m.log ≡ m.producers.head
    pub stored :
        (x : ℕ)
        → m.consumers.head ≤ x
        → x < m.producers.tail
        → slot zeroed cfg m.entries x ≡ get_or m.log x zeroed
    pub knows : Knows zeroed cfg r m p

  pub Solo-step :
      (r : Role) {m m' : Mem T} {p p' : Pc T}
      → Solo r m p
      → Move zeroed cfg r m p m' p'
      → Solo r m' p'
  Solo-step r {m} o mv =
      let a = o.producers in
      let b = o.consumers in
      record {
        producers = Move-InOrder r producer a b o.sees o.lies mv;
        consumers = Move-InOrder r consumer a b o.sees o.lies mv;
        sees = Move-Sees r o.sees mv;
        lies = Move-Lies r (side r) o.lies mv;
        full = Move-full zeroed cfg c m a b o.full o.logged r o.sees o.lies mv;
        logged = Move-logged zeroed cfg c m a b o.full o.logged r mv;
        stored = Move-stored zeroed cfg c m a b o.full o.logged o.stored r o.sees o.lies o.knows mv;
        knows = Move-Knows zeroed cfg c m a b o.full o.logged o.stored r o.sees o.lies o.knows mv;
      }
    where
      side : (r' : Role) → InOrder (capacity cfg) r' m
      side producer = o.producers
      side consumer = o.consumers

  -- The cached position lags by less than a cycle and a capacity.
  abbrev pub IsCacheFresh : Role → Mem T → Type 0
  IsCacheFresh r m = (lane (other r) m).tail + capacity cfg < (lane r m).cache + 2 ^ 32

  -- What the call has loaded is still there, and the request is its own.
  abbrev pub Loaded : Role → Request T → Mem T → Pc T → Type 0
  Loaded r q m (calling q') = q' ≡ q
  Loaded r q m (at_head q' h) = (q' ≡ q) × (h ≡ (lane r m).head)
  Loaded r q m (loading q' h x) = (q' ≡ q) × (h ≡ (lane r m).head)
  Loaded r q m (storing q' h x) = (q' ≡ q) × (h ≡ (lane r m).head) × (x ≡ (lane (other r) m).tail)
  Loaded r q m (deciding q' h x) =
      (q' ≡ q) × (h ≡ (lane r m).head) × ((lane (other r) m).tail + capacity cfg < x + 2 ^ 32)
  Loaded r q m pc = Unit

  abbrev pub IsUndisturbed : Role → Request T → Mem T → Pc T → Type 0
  IsUndisturbed r q m p = IsCacheFresh r m × Loaded r q m p

  pub Undisturbed-IsFresh :
      (r : Role) (q : Request T) (m : Mem T) (p : Pc T) → IsUndisturbed r q m p → IsFresh cfg r m p
  Undisturbed-IsFresh r q m idle u = tt
  Undisturbed-IsFresh r q m (calling q') u = tt
  Undisturbed-IsFresh r q m (at_head q' h) u = tt
  Undisturbed-IsFresh r q m (loading q' h x) u = tt
  Undisturbed-IsFresh r q m (storing q' h x) u = tt
  Undisturbed-IsFresh r q m (deciding q' h x) (f, (e, d, l)) = (omega arith, l)
  Undisturbed-IsFresh r q m (reserved q' s k n) u = tt
  Undisturbed-IsFresh r q m (copied s k n out) u = tt
  Undisturbed-IsFresh r q m (returned s k n out) u = tt

  conclude-Undisturbed :
      (r : Role) (q : Request T) (m : Mem T) (h : ℕ) (v : Verdict)
      → IsCacheFresh r m
      → IsUndisturbed r q (conclude r q h v m).0 (conclude r q h v m).1
  unfolding conclude
  conclude-Undisturbed r q m h again f = (f, refl)
  conclude-Undisturbed r q m h (refused n) f = (f, tt)
  conclude-Undisturbed r q m h (granted k n) f =
      elim (Bool-cases (word (lane r m).head == word h)) [
        | inl e ↦ rw e (kept r f, tt)
        | inr e ↦ rw e (f, refl)
      ]
    where
      kept : (r' : Role) → IsCacheFresh r' m → IsCacheFresh r' (reserve r' q k m)
      kept producer f' = f'
      kept consumer f' = f'

  pub advance-Undisturbed :
      (r : Role) (q : Request T) (m : Mem T) (p : Pc T)
      → IsUndisturbed r q m p
      → IsUndisturbed r q (advance zeroed cfg r p m).0 (advance zeroed cfg r p m).1
  unfolding advance transfer
  advance-Undisturbed r q m idle u = u
  advance-Undisturbed r q m (calling q') (f, e) = (f, (e, refl))
  advance-Undisturbed r q m (at_head q' h) (f, (e, d)) =
      elim (Bool-cases
        (must_load r q'.exact (capacity cfg) q'.requested (word h) (word (lane r m).cache))) [
          | inl t ↦ rw t (f, (e, d))
          | inr t ↦ rw t (f, (e, d, f))
        ]
  advance-Undisturbed r q m (loading q' h x) (f, (e, d)) =
      let small : capacity cfg < 2 ^ 32 = omega (arith, capacity_lem cfg c, capacity_bounds c) in
      elim (Bool-cases (word (lane (other r) m).tail == word x)) [
        | inl t ↦ rw t (f, (e, d, omega arith))
        | inr t ↦ rw t (f, (e, d, refl))
      ]
  advance-Undisturbed producer q m (storing q' h x) (f, (e, d, t)) =
      let small : capacity cfg < 2 ^ 32 = omega (arith, capacity_lem cfg c, capacity_bounds c) in
      (omega arith, (e, d, omega arith))
  advance-Undisturbed consumer q m (storing q' h x) (f, (e, d, t)) =
      let small : capacity cfg < 2 ^ 32 = omega (arith, capacity_lem cfg c, capacity_bounds c) in
      (omega arith, (e, d, omega arith))
  advance-Undisturbed r q m (deciding q' h x) (f, (e, d, t)) = rw e (
      conclude-Undisturbed r q m h
        (admit (capacity cfg) q.requested q.fixed (space r (capacity cfg) (word x) (word h))) f)
  advance-Undisturbed producer q m (reserved q' s k n) (f, u) = (f, tt)
  advance-Undisturbed consumer q m (reserved q' s k n) (f, u) = (f, tt)
  advance-Undisturbed producer q m (copied s k n out) (f, u) =
      elim (Bool-cases (word m.producers.tail == word s)) [
        | inl t ↦ rw t (f, tt)
        | inr t ↦ rw t (f, tt)
      ]
  advance-Undisturbed consumer q m (copied s k n out) (f, u) =
      elim (Bool-cases (word m.consumers.tail == word s)) [
        | inl t ↦ rw t (f, tt)
        | inr t ↦ rw t (f, tt)
      ]
  advance-Undisturbed r q m (returned s k n out) u = u
