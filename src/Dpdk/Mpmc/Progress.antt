-- ===== src/Dpdk/Mpmc/Progress.antt =====
-- No deadlock: every reserved position is held by a call, and the first one's call can publish.
use go_data_structures.Base.{
  ℕ, ◌+◌, ◌≤◌, ◌<◌, ◌≡◌, ◌⊎◌, inl, inr, refl, arith, true, false, lt_or_le, ◌==◌, update,
}
use native.Mathlib.Decide.{ℕ_discrete}
use go_data_structures.Dpdk.Capacity.{IsCapacity}
use go_data_structures.Dpdk.Mpmc.Admission.{Role, producer, consumer}
use go_data_structures.Dpdk.Mpmc.State.{
  Config, Mem, Pc, idle, calling, at_head, loading, storing, deciding, reserved, copied, returned,
  Thread, lane, word, advance, transfer,
}
use go_data_structures.Dpdk.Mpmc.System.{
  System, IsDone, act, call, Reach, start, acts, calls, resets, reset,
}
use go_data_structures.Dpdk.Mpmc.Intervals.{
  first, size, Blank-size, Move, looks, stores, waits, grants, copies, publishes,
}
use go_data_structures.Dpdk.Mpmc.Actions.{advance-Move}
use go_data_structures.Dpdk.Mpmc.Safety.{Reach-Inv}
use go_data_structures.Dpdk.Mpmc.Exclusive.{Holds}

module _ {T : Type 0} where
  -- A position between a side's publication and its head.
  abbrev Reserved : Role → Mem T → ℕ → Type 0
  Reserved r m x = ((lane r m).tail ≤ x) × (x < (lane r m).head)

  abbrev IsHolder : Role → (ℕ → Thread T) → ℕ → ℕ → Type 0
  IsHolder r threads x i = ((threads i).role ≡ r) × Holds (threads i).pc x

  abbrev pub Covered : Mem T → (ℕ → Thread T) → Type 0
  Covered m threads = (r : Role) (x : ℕ) → Reserved r m x → (i : ℕ) × IsHolder r threads x i

  -- The mover's new state, and the others' old ones.
  updated-IsHolder :
      {r : Role} (threads : ℕ → Thread T) {x : ℕ} (i : ℕ) (t : Thread T) (j : ℕ)
      → (j ≡ i → (t.role ≡ r) × Holds t.pc x)
      → IsHolder r threads x j
      → IsHolder r (update threads i t) x j
  updated-IsHolder threads i t j f h = elim (ℕ_discrete j i) [
    | yes e ↦ let d : (j == i) ≡ true = ground arith in rw d (f e)
    | no e ↦ let d : (j == i) ≡ false = ground arith in rw d h
  ]

  module _ {zeroed : T} {cfg : Config} where
    -- A reserved position is the mover's, or was reserved before and is not given up.
    Move-Reserved :
        (r r' : Role) {m m' : Mem T} {p p' : Pc T} (x : ℕ)
        → Move zeroed cfg r m p m' p'
        → Reserved r' m' x
        → ((r ≡ r') × Holds p' x) ⊎ (Reserved r' m x × (r ≡ r' → Holds p x → Holds p' x))
    unfolding transfer
    Move-Reserved r r' x (looks {pc = p} b b' f) h =
        inr (h, λ e g. absurd (omega (arith, Blank-size p b)))
    Move-Reserved producer producer x (stores {pc = p} k o b b' f) h =
        inr (h, λ e g. absurd (omega (arith, Blank-size p b)))
    Move-Reserved producer consumer x (stores {pc = p} k o b b' f) h =
        inr (h, λ e g. absurd (omega (arith, Blank-size p b)))
    Move-Reserved consumer producer x (stores {pc = p} k o b b' f) h =
        inr (h, λ e g. absurd (omega (arith, Blank-size p b)))
    Move-Reserved consumer consumer x (stores {pc = p} k o b b' f) h =
        inr (h, λ e g. absurd (omega (arith, Blank-size p b)))
    Move-Reserved r r' x waits h = inr (h, λ e g. g)
    Move-Reserved producer producer {m} x (grants k n i u w f) h =
        elim (lt_or_le x m.producers.head) [
          | inl l ↦ inr ((h.0, l), λ e g. absurd (omega arith))
          | inr l ↦ inl (refl, (l, h.1))
        ]
    Move-Reserved producer consumer x (grants k n i u w f) h = inr (h, λ e g. absurd (omega arith))
    Move-Reserved consumer producer x (grants k n i u w f) h = inr (h, λ e g. absurd (omega arith))
    Move-Reserved consumer consumer {m} x (grants k n i u w f) h =
        elim (lt_or_le x m.consumers.head) [
          | inl l ↦ inr ((h.0, l), λ e g. absurd (omega arith))
          | inr l ↦ inl (refl, (l, h.1))
        ]
    Move-Reserved producer producer x copies h = inr (h, λ e g. g)
    Move-Reserved producer consumer x copies h = inr (h, λ e g. g)
    Move-Reserved consumer producer x copies h = inr (h, λ e g. g)
    Move-Reserved consumer consumer x copies h = inr (h, λ e g. g)
    Move-Reserved producer producer x (publishes u e) h =
        inr ((omega arith, h.1), λ d g. absurd (omega arith))
    Move-Reserved producer consumer x (publishes u e) h = inr (h, λ d g. absurd (cc d))
    Move-Reserved consumer producer x (publishes u e) h = inr (h, λ d g. absurd (cc d))
    Move-Reserved consumer consumer x (publishes u e) h =
        inr ((omega arith, h.1), λ d g. absurd (omega arith))

    Move-Covered :
        {m m' : Mem T} (threads : ℕ → Thread T) {p' : Pc T} (i : ℕ)
        → Covered m threads
        → Move zeroed cfg (threads i).role m (threads i).pc m' p'
        → Covered m' (update threads i (record { role = (threads i).role; pc = p' }))
    Move-Covered threads {p'} i c mv r x h = elim (Move-Reserved (threads i).role r x mv h) [
      | inl k ↦ (i, let d : (i == i) ≡ true = ground arith in rw d k)
      | inr (k, g) ↦ kept (c r x k) g
    ]
      where
        kept :
            (j : ℕ) × IsHolder r threads x j
            → ((threads i).role ≡ r → Holds (threads i).pc x → Holds p' x)
            → (j : ℕ) × IsHolder r
                (update threads i (record { role = (threads i).role; pc = p' }))
                x
                j
        kept (j, (e, d)) g = (
          j,
          updated-IsHolder threads i (record { role = (threads i).role; pc = p' }) j
              (λ same. let e' = rw same at e in (e', g e' (rw same at d))) (e, d),
        )

  -- A call that has not begun, or has returned, holds nothing.
  IsDone-size : (p : Pc T) → IsDone p → size p ≡ 0
  IsDone-size idle d = refl
  IsDone-size (returned s k n out) d = refl
  IsDone-size (calling q) d = absurd d
  IsDone-size (at_head q h) d = absurd d
  IsDone-size (loading q h p) d = absurd d
  IsDone-size (storing q h p) d = absurd d
  IsDone-size (deciding q h p) d = absurd d
  IsDone-size (reserved q s k n) d = absurd d
  IsDone-size (copied s k n out) d = absurd d

  module _ (zeroed : T) (cfg : Config) (c : IsCapacity (cfg.mask + 1)) where
    Reach-Covered : {s : System T} → Reach zeroed cfg s → Covered s.mem s.threads
    unfolding act call reset
    Reach-Covered start producer x h = absurd (omega arith)
    Reach-Covered start consumer x h = absurd (omega arith)
    Reach-Covered (acts {s} i k f) r x h =
        let v = Reach-Inv zeroed cfg c k in
        Move-Covered s.threads i (Reach-Covered k)
          (advance-Move cfg c zeroed (s.threads i).role s.mem (s.threads i).pc v.producers
            v.consumers (v.sees i) (v.lies i) f)
          r x h
    Reach-Covered (resets k d) producer x h = absurd (omega arith)
    Reach-Covered (resets k d) consumer x h = absurd (omega arith)
    Reach-Covered (calls {s} i r' q k d u) r x h =
        let (j, (e, g)) = Reach-Covered k r x h in
        (
          j,
          updated-IsHolder s.threads i (record { role = r'; pc = calling q }) j
              (λ same.
                let g' = rw same at g in absurd (omega (arith, IsDone-size (s.threads i).pc d)))
              (e, g),
        )

    advanced_twice : Role → Pc T → Mem T → Mem T
    advanced_twice r p m = let (m', p') = advance zeroed cfg r p m in (advance zeroed cfg r p' m').0

    advanced_twice_lem :
        (r : Role) (p : Pc T) (m : Mem T)
        → Holds p (lane r m).tail
        → first p ≡ (lane r m).tail
        → (lane r m).tail < (lane r (advanced_twice r p m)).tail
    unfolding advanced_twice advance transfer
    advanced_twice_lem r idle m h e = absurd (omega arith)
    advanced_twice_lem r (calling q) m h e = absurd (omega arith)
    advanced_twice_lem r (at_head q x) m h e = absurd (omega arith)
    advanced_twice_lem r (loading q x y) m h e = absurd (omega arith)
    advanced_twice_lem r (storing q x y) m h e = absurd (omega arith)
    advanced_twice_lem r (deciding q x y) m h e = absurd (omega arith)
    advanced_twice_lem r (returned s k n out) m h e = absurd (omega arith)
    advanced_twice_lem producer (reserved q s k n) m h e =
        let t : (word m.producers.tail == word s) ≡ true = ground arith in
        rw (lane, t) (omega arith)
    advanced_twice_lem consumer (reserved q s k n) m h e =
        let t : (word m.consumers.tail == word s) ≡ true = ground arith in
        rw (lane, t) (omega arith)
    advanced_twice_lem producer (copied s k n out) m h e =
        let t : (word m.producers.tail == word s) ≡ true = ground arith in
        rw (lane, t) (omega arith)
    advanced_twice_lem consumer (copied s k n out) m h e =
        let t : (word m.consumers.tail == word s) ≡ true = ground arith in
        rw (lane, t) (omega arith)

    -- Two actions of a call that holds its side's first unpublished position publish it.
    publishing :
        (s : System T) (r : Role) (i : ℕ)
        → (s.threads i).role ≡ r
        → Holds (s.threads i).pc (lane r s.mem).tail
        → first (s.threads i).pc ≡ (lane r s.mem).tail
        → (lane r s.mem).tail < (lane r (act zeroed cfg i (act zeroed cfg i s)).mem).tail
    unfolding act advanced_twice
    publishing s r i e h d =
        let here : (i == i) ≡ true = ground arith in
        rw (here, e) (advanced_twice_lem r (s.threads i).pc s.mem h d)

    -- In every reachable state in which a side has reserved positions that it has not published,
    -- there is a call that publishes some within two of its own actions, whatever the others do
    -- not do.
    pub some_call_publishes :
        {s : System T}
        → Reach zeroed cfg s
        → (r : Role) → (lane r s.mem).tail < (lane r s.mem).head
        → (i : ℕ) × ((lane r s.mem).tail
            < (lane r (act zeroed cfg i (act zeroed cfg i s)).mem).tail)
    some_call_publishes {s} k r h =
        let v = Reach-Inv zeroed cfg c k in
        let (i, (e, g)) = Reach-Covered k r (lane r s.mem).tail (omega arith, h) in
        (i, publishing s r i e g (omega (arith, rw e at (v.lies i) (omega arith))))
