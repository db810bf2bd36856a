-- ===== src/Dpdk/Mpmc/Answers.antt =====
-- What a method answers when its call runs by itself.
use go_data_structures.Base.{
  ℕ, zero, suc, ◌+◌, ◌≤◌, ◌<◌, ◌≡◌, ◌⊎◌, inl, inr, refl, sym, ap, ◌∙◌, arith, Bool, true, false,
  List, [], ◌∷◌, ◌++◌, length, take, take_all, get_or, min, ◌==◌, if◌then◌else◌, Option, none, some,
}
use mathlib.Core.List.{append-nil}
use go_data_structures.Dpdk.Capacity.{IsCapacity}
use go_data_structures.Dpdk.Errors.{Error, full, empty}
use go_data_structures.Dpdk.Mpmc.State.{Config, capacity, Request, calling, returned, lane}
use go_data_structures.Dpdk.Mpmc.System.{System, Reach}
use go_data_structures.Dpdk.Mpmc.Methods.{
  Method, enqueue, dequeue, enqueue_bulk, enqueue_burst, dequeue_bulk, dequeue_burst, role, Answer,
  enqueued, dequeued, bulk_enqueued, burst_enqueued, bulk_dequeued, burst_dequeued, answer, request,
}
use go_data_structures.Dpdk.Mpmc.Requests.{IsAdmissible, request-IsAdmissible}
use go_data_structures.Dpdk.Mpmc.Room
use go_data_structures.Dpdk.Mpmc.Room.{admitted, admitted_fixed, admitted_partial}
use go_data_structures.Dpdk.Mpmc.Linearization.{pending}
use go_data_structures.Dpdk.Mpmc.Alone.{run}
use go_data_structures.Dpdk.Mpmc.Solo.{IsCacheFresh}
use go_data_structures.Dpdk.Mpmc.Transfers.{Moved, alone_moves}

abbrev no_error : Option Error
no_error = none

module _ {T : Type 0} (zeroed : T) (cfg : Config) where
  -- The answer of a method that finds `room` slots, from the list `xs` before it to `ys` after it,
  -- whatever number of slots it reports as left.
  abbrev pub Answered : Method T → (room : ℕ) → (xs ys : List T) → Answer T → Type 0
  Answered (enqueue x) room xs ys a =
      ((room ≡ 0) × (a ≡ enqueued (some full)) × (ys ≡ xs))
      ⊎ ((0 < room) × (a ≡ enqueued none) × (ys ≡ xs ++ x ∷ []))
  Answered dequeue room xs ys a =
      ((room ≡ 0) × (a ≡ dequeued zeroed (some empty)) × (ys ≡ xs))
      ⊎ ((0 < room) × ((x : T) × (a ≡ dequeued x none) × (xs ≡ x ∷ ys)))
  Answered (enqueue_bulk vs) room xs ys a =
      (n : ℕ) × (((room < length vs) × (a ≡ bulk_enqueued n (some full)) × (ys ≡ xs))
        ⊎ ((length vs ≤ room) × (a ≡ bulk_enqueued n none) × (ys ≡ xs ++ vs)))
  Answered (enqueue_burst vs) room xs ys a =
      let k = min (min (length vs) cfg.max_enqueue_batch) room in
      (n : ℕ) × (a ≡ burst_enqueued k n) × (ys ≡ xs ++ take k vs)
  Answered (dequeue_bulk d) room xs ys a =
      (n : ℕ) × (((room < d) × (a ≡ bulk_dequeued [] n (some empty)) × (ys ≡ xs))
        ⊎ ((d ≤ room)
            × ((out : List T) × (a ≡ bulk_dequeued out n none)
                × (out ++ ys ≡ xs)
                × (length out ≡ d))))
  Answered (dequeue_burst d) room xs ys a =
      let k = min (min d cfg.max_dequeue_batch) room in
      (n : ℕ) × (out : List T) × (a ≡ burst_dequeued out k n) × (out ++ ys ≡ xs) × (length out ≡ k)

  no_items : (out : List T) → length out ≡ 0 → out ≡ []
  no_items [] h = refl
  no_items (x ∷ out) h = absurd (omega arith)

  one_item_lem :
      (out xs ys : List T) → out ++ ys ≡ xs → length out ≡ 1 → xs ≡ get_or out 0 zeroed ∷ ys
  one_item_lem [] xs ys e h = absurd (omega arith)
  one_item_lem (x ∷ []) xs ys e h = sym e
  one_item_lem (x ∷ y ∷ out) xs ys e h = absurd (omega arith)

  module _ (c : IsCapacity (cfg.mask + 1)) where
    pub answer-Answered :
        (m : Method T) (q : Request T) (room n : ℕ) (xs ys out : List T)
        → IsAdmissible cfg m (some q)
        → Moved zeroed cfg c (role m) q (admitted q room) xs ys out
        → Answered m room xs ys (answer zeroed m (admitted q room) n out)
    unfolding answer
    answer-Answered (enqueue x) q room n xs ys out (_, _, w, _, f, i) t =
        elim (admitted_fixed q room f) [
          | inl (h, z) ↦ inl (omega arith, rw z refl, (rw z at t) ∙ append-nil xs)
          | inr (h, z) ↦
              let one : admitted q room ≡ 1 = z ∙ w in
              inr (omega arith, rw one refl, rw (one, i) at t)
        ]
    answer-Answered dequeue q room n xs ys out (_, _, w, _, f, i) t =
        elim (admitted_fixed q room f) [
          | inl (h, z) ↦ inl (omega arith, rw z refl, rw (no_items out (t.1 ∙ z)) at t.0)
          | inr (h, z) ↦
              let one : admitted q room ≡ 1 = z ∙ w in
              inr (
                omega arith,
                (get_or out 0 zeroed, rw one refl, one_item_lem out xs ys t.0 (t.1 ∙ one)),
              )
        ]
    answer-Answered (enqueue_bulk vs) q room n xs ys out (_, _, w, _, f, i) t =
        elim (admitted_fixed q room f) [
          | inl (h, z) ↦
              let some_items : (length vs == 0) ≡ false = ground arith in
              (n, inl (omega arith, rw (z, some_items) refl, (rw z at t) ∙ append-nil xs))
          | inr (h, z) ↦
              let all : admitted q room ≡ length vs = z ∙ w in
              let bulk : (if length vs == 0
                    then (if length vs == 0 then none else some full)
                    else none)
                  ≡ no_error =
                nothing_or (length vs == 0) in
              (
                n,
                inr (
                  omega arith,
                  rw all (ap (bulk_enqueued n) bulk),
                  (rw (all, i) at t) ∙ ap (λ zs. xs ++ zs) (take_all (length vs) vs (omega arith)),
                ),
              )
        ]
      where
        nothing_or : (b : Bool) → (if b then (if b then none else some full) else none) ≡ no_error
        nothing_or true = refl
        nothing_or false = refl
    answer-Answered (enqueue_burst vs) q room n xs ys out (_, _, w, _, f, i) t =
        let k : admitted q room ≡ min (min (length vs) cfg.max_enqueue_batch) room =
          admitted_partial q room f ∙ ap (λ x. min x room) w in
        (n, rw k refl, rw (k, i) at t)
    answer-Answered (dequeue_bulk d) q room n xs ys out (_, _, w, _, f, i) t =
        elim (admitted_fixed q room f) [
          | inl (h, z) ↦
              let some_items : (d == 0) ≡ false = ground arith in
              (n, inl (omega arith, rw (z, some_items) refl, rw (no_items out (t.1 ∙ z)) at t.0))
          | inr (h, z) ↦
              let all : admitted q room ≡ d = z ∙ w in
              (n, inr (omega arith, (out, rw all (answered d (t.1 ∙ all)), t.0, t.1 ∙ all)))
        ]
      where
        answered :
            (d' : ℕ)
            → length out ≡ d'
            → (if d' == 0
                then bulk_dequeued [] n (if d' == 0 then none else some empty)
                else bulk_dequeued out n none)
              ≡ bulk_dequeued out n none
        answered zero h = ap (λ zs. bulk_dequeued zs n none) (sym (no_items out h))
        answered (suc d') h = ground arith
    answer-Answered (dequeue_burst d) q room n xs ys out (_, _, w, _, f, i) t =
        let k : admitted q room ≡ min (min d cfg.max_dequeue_batch) room =
          admitted_partial q room f ∙ ap (λ x. min x room) w in
        (n, out, rw k (answered (min (min d cfg.max_dequeue_batch) room) (t.1 ∙ k)), t.0, t.1 ∙ k)
      where
        answered :
            (k' : ℕ)
            → length out ≡ k'
            → (if k' == 0 then burst_dequeued [] 0 n else burst_dequeued out k' n)
              ≡ burst_dequeued out k' n
        answered zero h = ap (λ zs. burst_dequeued zs 0 n) (sym (no_items out h))
        answered (suc k') h = ground arith

    -- A method of a queue with batch limits of at most the capacity, whose length is not refused, that
    -- starts in a reachable state and then runs by itself, while no other call of its side is in
    -- progress and with a cached position that is not more than a cycle less a capacity old, returns
    -- within seven actions and answers as a bounded list does: a single item or a bulk that does not
    -- fit, or is not there, is refused and changes nothing, and else goes whole to the back or comes
    -- whole off the front; a burst moves what its limit, the room and the items at hand allow, in
    -- order. The list is that of the items that are not reserved by consumers, the numbers of slots
    -- that bulks and bursts report as left are left aside.
    pub alone_answers :
        {s : System T} (i : ℕ) (m : Method T) (q : Request T)
        → Reach zeroed cfg s
        → request cfg m ≡ some q
        → s.threads i ≡ record { role = role m; pc = calling q }
        → (lane (role m) s.mem).tail ≡ (lane (role m) s.mem).head
        → IsCacheFresh zeroed cfg c (role m) s.mem
        → 0 < capacity cfg
        → cfg.max_enqueue_batch ≤ capacity cfg
        → cfg.max_dequeue_batch ≤ capacity cfg
        → let (mem', p') = run zeroed cfg 7 (role m) (calling q) s.mem in
          (k n : ℕ) × (out : List T) × (p' ≡ returned (lane (role m) s.mem).head k n out)
          × Answered m
              (Room.room cfg (role m) s.mem)
              (pending s.mem)
              (pending mem')
              (answer zeroed m k n out)
    alone_answers {s} i m q k e d h f a b l =
        let fits : IsAdmissible cfg m (some q) = rw e at (request-IsAdmissible cfg m a b l) in
        let (n, out, g, t) = alone_moves zeroed cfg c i (role m) q k d h fits.3 f in
        let space = Room.room cfg (role m) s.mem in
        (
          admitted q space,
          n,
          out,
          g,
          answer-Answered m q space n (pending s.mem)
              (pending (run zeroed cfg 7 (role m) (calling q) s.mem).0) out fits t,
        )
