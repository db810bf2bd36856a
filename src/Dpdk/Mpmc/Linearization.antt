-- ===== src/Dpdk/Mpmc/Linearization.antt =====
-- The queue as a list, which a call changes at one instant: its successful compare-and-swap. What a
-- consumer gets there is what its copy reads from the array, and what it returns.
use go_data_structures.Base.{
  ℕ, ◌+◌, ◌≡◌, ◌≢◌, [], refl, sym, ap, ◌∙◌, arith, Bool, true, false, List, ◌++◌, take, drop, slice,
  take-append-drop, drop-append_le, drop-drop, if◌then◌else◌, ◌==◌,
}
use go_data_structures.Dpdk.Capacity.{IsCapacity}
use go_data_structures.Dpdk.Mpmc.Admission.{Role, producer, consumer}
use go_data_structures.Dpdk.Mpmc.State.{
  Config, capacity, Mem, Request, Pc, idle, calling, at_head, loading, storing, deciding, reserved,
  copied, returned, Thread, transfer,
}
use go_data_structures.Dpdk.Mpmc.System.{System, IsFresh, act, Reach}
use go_data_structures.Dpdk.Mpmc.Intervals.{
  Blank, Sees, Lies, Inv, Move, looks, stores, waits, grants, copies, publishes,
}
use go_data_structures.Dpdk.Mpmc.Actions.{advance-Move}
use go_data_structures.Dpdk.Mpmc.Safety.{Reach-Inv}
use go_data_structures.Dpdk.Mpmc.Contents.{Knows, Data, Change, slice_kept}
use go_data_structures.Dpdk.Mpmc.Writes.{Move-Change}
use go_data_structures.Dpdk.Mpmc.Learns.{Move-Knows}
use go_data_structures.Dpdk.Mpmc.Fifo.{Reach-Data}

pub data Effect (T : Type 0) : Type 0 where
  silent : Effect T
  enqueues : List T → Effect T
  dequeues : List T → Effect T

-- A first-in first-out list, and the items that one call has got from it.
pub data FifoStep {T : Type 0} : List T → List T → Effect T → List T → List T → Type 0 where
  silently : {xs out : List T} → FifoStep xs out silent xs out
  at_back : {xs out : List T} (ys : List T) → FifoStep xs out (enqueues ys) (xs ++ ys) out
  at_front : {xs : List T} (ys : List T) → FifoStep (ys ++ xs) [] (dequeues ys) xs ys

module _ {T : Type 0} where
  -- The items that producers have reserved slots for, and consumers have not.
  abbrev pub pending : Mem T → List T
  pending m = drop m.consumers.head m.log

  -- The items that a call has got: those it has read, and before that those it has reserved.
  abbrev pub given : Role → Mem T → Pc T → List T
  given consumer m (reserved q s k n) = slice m.log s k
  given consumer m (copied s k n out) = out
  given consumer m (returned s k n out) = out
  given r m pc = []

  abbrev pub given_to : System T → ℕ → List T
  given_to s i = given (s.threads i).role s.mem (s.threads i).pc

  abbrev pub holding : Pc T → Bool
  holding (reserved q s k n) = true
  holding (copied s k n out) = true
  holding pc = false

  abbrev pub granted_effect : Role → Mem T → Request T → ℕ → ℕ → Effect T
  granted_effect producer m q s k = enqueues (take k q.items)
  granted_effect consumer m q s k = dequeues (slice m.log s k)

  -- What an action does to the list: the call gets its interval, or nothing.
  abbrev pub effect : Role → Mem T → Pc T → Pc T → Effect T
  effect r m p (reserved q s k n) = if holding p then silent else granted_effect r m q s k
  effect r m p p' = silent

  Blank-effect : (r : Role) (m : Mem T) (p p' : Pc T) → Blank p' → effect r m p p' ≡ silent
  Blank-effect r m p idle b = refl
  Blank-effect r m p (calling q) b = refl
  Blank-effect r m p (at_head q h) b = refl
  Blank-effect r m p (loading q h x) b = refl
  Blank-effect r m p (storing q h x) b = refl
  Blank-effect r m p (deciding q h x) b = refl
  Blank-effect r m p (reserved q s k n) b = absurd b
  Blank-effect r m p (copied s k n out) b = absurd b
  Blank-effect r m p (returned s k n out) b = refl

  waits-effect : (r : Role) (m : Mem T) (p : Pc T) → effect r m p p ≡ silent
  waits-effect r m idle = refl
  waits-effect r m (calling q) = refl
  waits-effect r m (at_head q h) = refl
  waits-effect r m (loading q h x) = refl
  waits-effect r m (storing q h x) = refl
  waits-effect r m (deciding q h x) = refl
  waits-effect r m (reserved q s k n) = refl
  waits-effect r m (copied s k n out) = refl
  waits-effect r m (returned s k n out) = refl

  pub Blank-given : (r : Role) (m : Mem T) (p : Pc T) → Blank p → given r m p ≡ []
  Blank-given producer m idle b = refl
  Blank-given producer m (calling q) b = refl
  Blank-given producer m (at_head q h) b = refl
  Blank-given producer m (loading q h x) b = refl
  Blank-given producer m (storing q h x) b = refl
  Blank-given producer m (deciding q h x) b = refl
  Blank-given producer m (reserved q s k n) b = absurd b
  Blank-given producer m (copied s k n out) b = absurd b
  Blank-given producer m (returned s k n out) b = refl
  Blank-given consumer m idle b = refl
  Blank-given consumer m (calling q) b = refl
  Blank-given consumer m (at_head q h) b = refl
  Blank-given consumer m (loading q h x) b = refl
  Blank-given consumer m (storing q h x) b = refl
  Blank-given consumer m (deciding q h x) b = refl
  Blank-given consumer m (reserved q s k n) b = absurd b
  Blank-given consumer m (copied s k n out) b = absurd b
  Blank-given consumer m (returned s k n out) b = b.1

  module _ {zeroed : T} {cfg : Config} {p : Pc T} {m m' : Mem T}
      (ch : Change zeroed cfg p m m') where
    -- What another call has got stays, since the log only gets longer.
    given-kept : (r : Role) (u : Pc T) → Lies r m u → Sees r m u → given r m' u ≡ given r m u
    given-kept producer idle l z = refl
    given-kept producer (calling q) l z = refl
    given-kept producer (at_head q h) l z = refl
    given-kept producer (loading q h x) l z = refl
    given-kept producer (storing q h x) l z = refl
    given-kept producer (deciding q h x) l z = refl
    given-kept producer (reserved q s k n) l z = refl
    given-kept producer (copied s k n out) l z = refl
    given-kept producer (returned s k n out) l z = refl
    given-kept consumer idle l z = refl
    given-kept consumer (calling q) l z = refl
    given-kept consumer (at_head q h) l z = refl
    given-kept consumer (loading q h x) l z = refl
    given-kept consumer (storing q h x) l z = refl
    given-kept consumer (deciding q h x) l z = refl
    given-kept consumer (reserved q s k n) l z =
        slice_kept zeroed cfg ch s k
          (omega (arith, l z.1, ch.consumers_order, ch.producers_order, ch.logged))
    given-kept consumer (copied s k n out) l z = refl
    given-kept consumer (returned s k n out) l z = refl

  pub drop-slice_front : (xs : List T) (i k : ℕ) → slice xs i k ++ drop (i + k) xs ≡ drop i xs
  unfolding slice
  drop-slice_front xs i k =
      ap (λ ys. take k (drop i xs) ++ ys) (sym (drop-drop i k (i + k) xs refl))
      ∙ take-append-drop k (drop i xs)

  module _ (zeroed : T) (cfg : Config) (c : IsCapacity (cfg.mask + 1)) where
    Move-Fifo :
        {threads : ℕ → Thread T}
        → (r : Role) {m m' : Mem T} {p p' : Pc T} → Inv (capacity cfg) m threads
        → Data zeroed cfg m threads
        → Sees r m p
        → Lies r m p
        → Knows zeroed cfg r m p
        → Move zeroed cfg r m p m' p'
        → FifoStep (pending m) (given r m p) (effect r m p p') (pending m') (given r m' p')
    unfolding transfer
    Move-Fifo r {m} v d z l h (looks {pc = p} {pc' = p'} e e' f) =
        rw (Blank-effect r m p p' e', Blank-given r m p e, Blank-given r m p' e') silently
    Move-Fifo producer {m} {m'} v d z l h (stores {pc = p} {pc' = p'} _ g e e' f) =
        rw
          (
            Blank-effect producer m p p' e',
            Blank-given producer m p e,
            Blank-given producer m' p' e',
          )
          silently
    Move-Fifo consumer {m} {m'} v d z l h (stores {pc = p} {pc' = p'} _ g e e' f) =
        rw
          (
            Blank-effect consumer m p p' e',
            Blank-given consumer m p e,
            Blank-given consumer m' p' e',
          )
          silently
    Move-Fifo r {m} {p = p} v d z l h waits = rw (waits-effect r m p) silently
    Move-Fifo producer {m} v d z l h (grants {q} k n i g g' f) =
        rw
          (drop-append_le m.consumers.head m.log (take k q.items)
            (omega (arith, d.logged, v.producers, v.consumers)))
          (at_back (take k q.items))
    Move-Fifo consumer {m} v d z l h (grants {q} k n i g g' f) =
        rw (drop-slice_front m.log m.consumers.head k) at
          (at_front {xs = drop (m.consumers.head + k) m.log} (slice m.log m.consumers.head k))
    Move-Fifo producer v d z l h copies = silently
    Move-Fifo consumer {m} v d z l h (copies {q} {s} {k} {n}) =
        let read =
          Move-Knows zeroed cfg c m v.producers v.consumers d.full d.logged d.stored consumer z l h
            (copies {q = q} {s = s} {k = k} {n = n}) in
        rw read silently
    Move-Fifo producer v d z l h (publishes g e) = silently
    Move-Fifo consumer v d z l h (publishes g e) = silently

    -- Every action of a call in a reachable state, when its observations are recent enough, is a
    -- step of a first-in first-out list and of the items that the call has got from it: one that
    -- leaves both, or, when the call gets its interval, one that puts the producer's first items at
    -- the back, or takes items off the front and gives them to the consumer. The consumer has the
    -- same items when it has read the array and when it returns, and no other call's items change.
    pub act_is_fifo :
        {s : System T} (i : ℕ)
        → Reach zeroed cfg s
        → IsFresh cfg (s.threads i).role s.mem (s.threads i).pc
        → FifoStep
            (pending s.mem)
            (given_to s i)
            (effect (s.threads i).role s.mem (s.threads i).pc ((act zeroed cfg i s).threads i).pc)
            (pending (act zeroed cfg i s).mem)
            (given_to (act zeroed cfg i s) i)
          × ((j : ℕ) → j ≢ i → given_to (act zeroed cfg i s) j ≡ given_to s j)
    unfolding act
    act_is_fifo {s} i k f =
        let v = Reach-Inv zeroed cfg c k in
        let d = Reach-Data zeroed cfg c k in
        let t = s.threads i in
        let mv =
          advance-Move cfg c zeroed t.role s.mem t.pc v.producers v.consumers (v.sees i) (v.lies i)
            f in
        let ch =
          Move-Change zeroed cfg c s.mem v.producers v.consumers d.full t.role d.logged (v.sees i)
            (v.lies i) mv in
        let here : (i == i) ≡ true = ground arith in
        (
          rw here (Move-Fifo t.role v d (v.sees i) (v.lies i) (d.knows i) mv),
          λ j n.
              let there : (j == i) ≡ false = ground arith in
              rw there (given-kept ch (s.threads j).role (s.threads j).pc (v.lies j) (v.sees j)),
        )
