-- ===== src/Dpdk/Mpmc/Transfers.antt =====
-- What a call that runs by itself moves: the queue's list before it and after it.
use go_data_structures.Base.{
  ℕ, zero, suc, ◌+◌, ◌≤◌, ◌≡◌, refl, sym, ap, ◌∙◌, arith, List, ◌++◌, length, take, length-slice,
  drop-append_le,
}
use mathlib.Core.List.{append-nil}
use go_data_structures.Dpdk.Capacity.{IsCapacity}
use go_data_structures.Dpdk.Mpmc.Admission.{Role, producer, consumer}
use go_data_structures.Dpdk.Mpmc.State.{
  Config, capacity, Mem, Request, Pc, idle, calling, at_head, loading, storing, deciding, reserved,
  copied, returned, lane, advance, transfer,
}
use go_data_structures.Dpdk.Mpmc.System.{System, Reach}
use go_data_structures.Dpdk.Mpmc.Intervals.{
  Blank, Move, looks, stores, waits, grants, copies, publishes,
}
use go_data_structures.Dpdk.Mpmc.Actions.{advance-Move}
use go_data_structures.Dpdk.Mpmc.Safety.{Reach-Inv}
use go_data_structures.Dpdk.Mpmc.Learns.{Move-Knows}
use go_data_structures.Dpdk.Mpmc.Fifo.{Reach-Data}
use go_data_structures.Dpdk.Mpmc.Linearization.{pending, given, Blank-given, drop-slice_front}
use go_data_structures.Dpdk.Mpmc.Room.{admitted, room}
use go_data_structures.Dpdk.Mpmc.Alone.{run, alone_returns}
use go_data_structures.Dpdk.Mpmc.Solo.{
  Solo, Solo-step, IsCacheFresh, Loaded, IsUndisturbed, Undisturbed-IsFresh, advance-Undisturbed,
}

module _ {T : Type 0} (zeroed : T) (cfg : Config) (c : IsCapacity (cfg.mask + 1)) where
  -- The slots that the call has got.
  abbrev got : Pc T → ℕ
  got (reserved q s k n) = k
  got (copied s k n out) = k
  got (returned s k n out) = k
  got p = 0

  Blank-got : (p : Pc T) → Blank p → got p ≡ 0
  Blank-got idle b = refl
  Blank-got (calling q) b = refl
  Blank-got (at_head q h) b = refl
  Blank-got (loading q h x) b = refl
  Blank-got (storing q h x) b = refl
  Blank-got (deciding q h x) b = refl
  Blank-got (reserved q s k n) b = absurd b
  Blank-got (copied s k n out) b = absurd b
  Blank-got (returned s k n out) b = b.0

  -- The items that a producer's call has put behind `xs`, or that a consumer's has got from its
  -- front.
  abbrev Tracks : Role → Request T → List T → Mem T → Pc T → Type 0
  Tracks producer q xs m p = pending m ≡ xs ++ take (got p) q.items
  Tracks consumer q xs m p =
      (given consumer m p ++ pending m ≡ xs) × (length (given consumer m p) ≡ got p)

  Tracks-step :
      (r : Role) (q : Request T) (xs : List T) {m m' : Mem T} {p p' : Pc T}
      → Solo zeroed cfg c r m p
      → Loaded zeroed cfg c r q m p
      → Tracks r q xs m p
      → Move zeroed cfg r m p m' p'
      → Tracks r q xs m' p'
  unfolding transfer
  Tracks-step producer q xs o u t (looks {pc = p} {pc' = p'} e e' f) =
      rw (Blank-got p' e') (rw (Blank-got p e) at t)
  Tracks-step producer q xs o u t (stores {pc = p} {pc' = p'} _ g e e' f) =
      rw (Blank-got p' e') (rw (Blank-got p e) at t)
  Tracks-step producer q xs o u t waits = t
  Tracks-step producer q xs {m} o u t (grants {q = q'} k n i g g' f) =
      drop-append_le m.consumers.head m.log (take k q'.items)
        (omega (arith, o.logged, o.producers, o.consumers))
      ∙ ap (λ ys. ys ++ take k q'.items) (t ∙ append-nil xs)
      ∙ ap (λ z. xs ++ take k z.items) u.0
  Tracks-step producer q xs o u t copies = t
  Tracks-step producer q xs o u t (publishes g e) = t
  Tracks-step consumer q xs {m} {m'} o u t (looks {pc = p} {pc' = p'} e e' f) =
      rw (Blank-given consumer m' p' e', Blank-got p' e')
        (rw (Blank-given consumer m p e, Blank-got p e) at t)
  Tracks-step consumer q xs {m} {m'} o u t (stores {pc = p} {pc' = p'} _ g e e' f) =
      rw (Blank-given consumer m' p' e', Blank-got p' e')
        (rw (Blank-given consumer m p e, Blank-got p e) at t)
  Tracks-step consumer q xs o u t waits = t
  Tracks-step consumer q xs {m} o u t (grants k n i g g' f) = (
    drop-slice_front m.log m.consumers.head k ∙ t.0,
    length-slice m.log m.consumers.head k (omega (arith, o.logged, o.producers)),
  )
  Tracks-step consumer q xs {m} o u t (copies {q = q'} {s} {k} {n}) =
      let read =
        Move-Knows zeroed cfg c m o.producers o.consumers o.full o.logged o.stored consumer o.sees
          o.lies o.knows (copies {q = q'} {s = s} {k = k} {n = n}) in
      rw read t
  Tracks-step consumer q xs o u t (publishes g e) = t

  run-Tracks :
      (n : ℕ) (r : Role) (q : Request T) (xs : List T) (p : Pc T) (m : Mem T)
      → Solo zeroed cfg c r m p
      → IsUndisturbed zeroed cfg c r q m p
      → Tracks r q xs m p
      → Tracks r q xs (run zeroed cfg n r p m).0 (run zeroed cfg n r p m).1
  unfolding run advance
  run-Tracks zero r q xs p m o u t = t
  run-Tracks (suc n) r q xs p m o u t =
      let mv =
        advance-Move cfg c zeroed r m p o.producers o.consumers o.sees o.lies
          (Undisturbed-IsFresh zeroed cfg c r q m p u) in
      run-Tracks n r q xs (advance zeroed cfg r p m).1 (advance zeroed cfg r p m).0
        (Solo-step zeroed cfg c r o mv) (advance-Undisturbed zeroed cfg c r q m p u)
        (Tracks-step r q xs o u.1 t mv)

  -- The first `k` of the producer's items go to the back of the list, or `k` items come off its front
  -- and are the consumer's.
  abbrev pub Moved : Role → Request T → ℕ → (xs ys out : List T) → Type 0
  Moved producer q k xs ys out = ys ≡ xs ++ take k q.items
  Moved consumer q k xs ys out = (out ++ ys ≡ xs) × (length out ≡ k)

  starting : (r : Role) (q : Request T) (m : Mem T) → Tracks r q (pending m) m (calling q)
  starting producer q m = sym (append-nil (pending m))
  starting consumer q m = (refl, refl)

  -- A call that starts in a reachable state and then runs by itself, while no other call of its side
  -- is in progress, that asks for at most a capacity and whose cached position is not more than a
  -- cycle less a capacity old, returns within seven actions with the slots that its request is to get
  -- of those that there are. As a producer it has added that many of its first items to the back of
  -- the list of the items that are not reserved by consumers, and as a consumer it has taken, and
  -- returns, that many items from the front.
  pub alone_moves :
      {s : System T} (i : ℕ) (r : Role) (q : Request T)
      → Reach zeroed cfg s
      → s.threads i ≡ record { role = r; pc = calling q }
      → (lane r s.mem).tail ≡ (lane r s.mem).head
      → q.requested ≤ capacity cfg
      → IsCacheFresh zeroed cfg c r s.mem
      → let (m', p') = run zeroed cfg 7 r (calling q) s.mem in
        let k = admitted q (room cfg r s.mem) in
        (n : ℕ) × (out : List T) × (p' ≡ returned (lane r s.mem).head k n out)
        × Moved r q k (pending s.mem) (pending m') out
  alone_moves {s} i r q k e d h f =
      let v = Reach-Inv zeroed cfg c k in
      let w = Reach-Data zeroed cfg c k in
      let solo : Solo zeroed cfg c r s.mem (calling q) = record {
        producers = v.producers;
        consumers = v.consumers;
        sees = rw e at (v.sees i);
        lies = λ g. absurd (omega arith);
        full = w.full;
        logged = w.logged;
        stored = w.stored;
        knows = rw e at (w.knows i);
      } in
      let t =
        run-Tracks 7 r q (pending s.mem) (calling q) s.mem solo (f, refl) (starting r q s.mem) in
      let (n, out, g, _) = alone_returns zeroed cfg c r s.mem q v.producers v.consumers d h f in
      (
        n,
        out,
        g,
        moved r _ (lane r s.mem).head (admitted q (room cfg r s.mem)) n out (pending s.mem)
            (rw g at t),
      )
    where
      moved :
          (r' : Role) (m' : Mem T) (h' k' n' : ℕ) (out' xs : List T)
          → Tracks r' q xs m' (returned h' k' n' out')
          → Moved r' q k' xs (pending m') out'
      moved producer m' h' k' n' out' xs t = t
      moved consumer m' h' k' n' out' xs t = t
