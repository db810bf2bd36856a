-- ===== src/Dpdk/Mpmc/Fifo.antt =====
-- In every reachable state the slots hold the items of the log, and a consumer gets those of its
-- positions.
use go_data_structures.Base.{
  ℕ, ◌+◌, ◌-◌, ◌≤◌, ◌<◌, ◌≡◌, ◌≢◌, ◌⊎◌, inl, inr, refl, sym, ◌∙◌, arith, length, take,
  length-append, length-replicate, get_or, lt_or_le, update, update_all,
}
use go_data_structures.Dpdk.Capacity.{IsCapacity}
use go_data_structures.Dpdk.Mpmc.Admission.{Role, producer, consumer}
use go_data_structures.Dpdk.Mpmc.State.{
  Config, capacity, Mem, Request, Pc, calling, Thread, transfer,
}
use go_data_structures.Dpdk.Mpmc.System.{
  System, act, call, Reach, start, acts, calls, resets, reset,
}
use go_data_structures.Dpdk.Mpmc.Intervals.{
  first, size, Sees, Lies, Apart, InOrder, Inv, Move, looks, stores, waits, grants, copies,
  publishes,
}
use go_data_structures.Dpdk.Mpmc.Actions.{advance-Move}
use go_data_structures.Dpdk.Mpmc.Safety.{Reach-Inv}
use go_data_structures.Dpdk.Mpmc.Slots.{slot}
use go_data_structures.Dpdk.Mpmc.Contents.{Knows, Data, log_kept, Knows-kept}
use go_data_structures.Dpdk.Mpmc.Writes.{granted_items, length-transfer, Move-Change}
use go_data_structures.Dpdk.Mpmc.Learns.{Move-Knows}

module _ {T : Type 0} where
  -- Intervals of different calls are apart, whichever their sides.
  pub Inv-Apart :
      {bound : ℕ} {m : Mem T} {threads : ℕ → Thread T}
      → Inv bound m threads
      → (i j : ℕ) → i ≢ j
      → Apart (threads i).pc (threads j).pc
  Inv-Apart {threads} v i j n = sides (threads i).role (threads j).role refl refl
    where
      sides :
          (r r' : Role)
          → (threads i).role ≡ r
          → (threads j).role ≡ r'
          → Apart (threads i).pc (threads j).pc
      sides producer producer e d = v.apart i j n (e ∙ sym d)
      sides consumer consumer e d = v.apart i j n (e ∙ sym d)
      sides producer consumer e d =
          λ g k. inr (omega (arith, rw e at (v.lies i) g, rw d at (v.lies j) k, v.consumers))
      sides consumer producer e d =
          λ g k. inl (omega (arith, rw e at (v.lies i) g, rw d at (v.lies j) k, v.consumers))

  module _ (zeroed : T) (cfg : Config) (c : IsCapacity (cfg.mask + 1)) where
    module _ (m : Mem T) (a : InOrder (capacity cfg) producer m)
        (b : InOrder (capacity cfg) consumer m) (full : length m.entries ≡ capacity cfg)
        (logged : length m.log ≡ m.producers.head) where
      pub Move-full :
          (r : Role) {m' : Mem T} {p p' : Pc T}
          → Sees r m p
          → Lies r m p
          → Move zeroed cfg r m p m' p'
          → length m'.entries ≡ capacity cfg
      Move-full r z l (looks e e' f) = full
      Move-full producer z l (stores h g e e' f) = full
      Move-full consumer z l (stores h g e e' f) = full
      Move-full r z l waits = full
      Move-full producer z l (grants k n i h h' f) = full
      Move-full consumer z l (grants k n i h h' f) = full
      Move-full r z l (copies {q} {s} {k} {n}) =
          length-transfer zeroed cfg c m a b full q s k n r z l
      Move-full producer z l (publishes h e) = full
      Move-full consumer z l (publishes h e) = full

      pub Move-logged :
          (r : Role) {m' : Mem T} {p p' : Pc T}
          → Move zeroed cfg r m p m' p'
          → length m'.log ≡ m'.producers.head
      unfolding transfer
      Move-logged r (looks e e' f) = logged
      Move-logged producer (stores h g e e' f) = logged
      Move-logged consumer (stores h g e e' f) = logged
      Move-logged r waits = logged
      Move-logged producer (grants {q} k n i h h' f) =
          omega (arith, length-append m.log (take k q.items), granted_items q k i h', logged)
      Move-logged consumer (grants k n i h h' f) = logged
      Move-logged producer copies = logged
      Move-logged consumer copies = logged
      Move-logged producer (publishes h e) = logged
      Move-logged consumer (publishes h e) = logged

      module _
          (stored : (x : ℕ)
            → m.consumers.head ≤ x
            → x < m.producers.tail
            → slot zeroed cfg m.entries x ≡ get_or m.log x zeroed) where
        -- What was published and not reserved stays.
        stored_kept :
            (r : Role) {m' : Mem T} {p p' : Pc T}
            → Sees r m p
            → Lies r m p
            → Move zeroed cfg r m p m' p'
            → (x : ℕ) → m.consumers.head ≤ x
            → x < m.producers.tail
            → slot zeroed cfg m'.entries x ≡ get_or m'.log x zeroed
        stored_kept r {m' = m'} {p} z l mv x f g =
            let ch = Move-Change zeroed cfg c m a b full r logged z l mv in
            ch.spares x (omega arith) (omega arith) (aside r l)
            ∙ stored x f g
            ∙ sym (log_kept zeroed cfg ch x (omega (arith, logged)))
          where
            aside : (r' : Role) → Lies r' m p → 0 < size p → (x < first p) ⊎ (first p + size p ≤ x)
            aside producer l' h = inl (omega (arith, l' h))
            aside consumer l' h = inr (omega (arith, l' h))

        pub Move-stored :
            (r : Role) {m' : Mem T} {p p' : Pc T}
            → Sees r m p
            → Lies r m p
            → Knows zeroed cfg r m p
            → Move zeroed cfg r m p m' p'
            → (x : ℕ) → m'.consumers.head ≤ x
            → x < m'.producers.tail
            → slot zeroed cfg m'.entries x ≡ get_or m'.log x zeroed
        unfolding transfer
        Move-stored r z l h (looks e e' f) = stored
        Move-stored producer z l h (stores _ g e e' f) = stored
        Move-stored consumer z l h (stores _ g e e' f) = stored
        Move-stored r z l h waits = stored
        Move-stored producer z l h (grants {q} k n i g g' f) =
            λ x d d'. stored_kept producer z l (grants {q = q} k n i g g' f) x d d'
        Move-stored consumer z l h (grants k n i g g' f) = λ x d d'. stored x (omega arith) d'
        Move-stored producer z l h (copies {q} {s} {k} {n}) =
            λ x d d'. stored_kept producer z l (copies {q = q} {n = n}) x d d'
        Move-stored consumer z l h (copies {q} {s} {k} {n}) =
            λ x d d'. stored_kept consumer z l (copies {q = q} {n = n}) x d d'
        Move-stored producer z l h (publishes {s} {k} {n} g e) = λ x d d'.
            elim (lt_or_le x m.producers.tail) [
              | inl t ↦ stored x d t
              | inr t ↦ let u : s + (x - s) ≡ x = omega arith in rw u at (h (x - s) (omega arith))
            ]
        Move-stored consumer z l h (publishes g e) = stored

    -- An action keeps what is known of the data.
    Move-Data :
        {m m' : Mem T} {threads : ℕ → Thread T} {p' : Pc T} (i : ℕ)
        → Inv (capacity cfg) m threads
        → Data zeroed cfg m threads
        → Move zeroed cfg (threads i).role m (threads i).pc m' p'
        → Data zeroed cfg m' (update threads i (record { role = (threads i).role; pc = p' }))
    Move-Data {m} {m'} {threads} {p'} i v d mv =
        let r = (threads i).role in
        let a = v.producers in
        let b = v.consumers in
        let ch = Move-Change zeroed cfg c m a b d.full r d.logged (v.sees i) (v.lies i) mv in
        record {
          full = Move-full m a b d.full d.logged r (v.sees i) (v.lies i) mv;
          logged = Move-logged m a b d.full d.logged r mv;
          stored =
              Move-stored m a b d.full d.logged d.stored r (v.sees i) (v.lies i) (d.knows i) mv;
          knows =
              update_all (λ t. Knows zeroed cfg t.role m' t.pc) threads i
                (record { role = r; pc = p' })
                (Move-Knows zeroed cfg c m a b d.full d.logged d.stored r (v.sees i) (v.lies i)
                  (d.knows i) mv)
                (λ j n.
                  Knows-kept zeroed cfg ch (threads j).role (threads j).pc (v.lies j) (v.sees j)
                    (Inv-Apart v i j (λ e. n (sym e))) (d.knows j));
        }

    pub Reach-Data : {s : System T} → Reach zeroed cfg s → Data zeroed cfg s.mem s.threads
    unfolding act call reset
    Reach-Data start = record {
      full = length-replicate (capacity cfg) zeroed;
      logged = refl;
      stored = λ x h l. absurd (omega arith);
      knows = λ i. tt;
    }
    Reach-Data (acts {s} i r f) =
        let v = Reach-Inv zeroed cfg c r in
        Move-Data i v (Reach-Data r) (
          advance-Move cfg c zeroed (s.threads i).role s.mem (s.threads i).pc v.producers
            v.consumers (v.sees i) (v.lies i) f)
    Reach-Data (resets {s} k d) = record {
      full = length-replicate (length s.mem.entries) zeroed ∙ (Reach-Data k).full;
      logged = refl;
      stored = λ x h l. absurd (omega arith);
      knows = λ i. tt;
    }
    Reach-Data (calls {s} i r q k d h) =
        let old = Reach-Data k in
        record {
          full = old.full;
          logged = old.logged;
          stored = old.stored;
          knows =
              update_all (λ t. Knows zeroed cfg t.role s.mem t.pc) s.threads i
                (record { role = r; pc = calling q }) (nothing r q) (λ j n. old.knows j);
        }
      where
        nothing : (r' : Role) (q' : Request T) → Knows zeroed cfg r' s.mem (calling q')
        nothing producer q' = tt
        nothing consumer q' = tt
