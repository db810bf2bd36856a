-- ===== src/Dpdk/Mpmc/Alone.antt =====
-- A call that runs by itself: it returns, with the slots that there are.
use go_data_structures.Base.{
  ℕ, zero, suc, ◌+◌, ◌-◌, ◌^◌, ◌≤◌, ◌<◌, ◌≡◌, refl, ◌∙◌, arith, true, false, ◌&&◌, Bool-cases, inl,
  inr, List, [], min, ltb, ◌==◌,
}
use go_data_structures.Dpdk.Capacity.{IsCapacity}
use go_data_structures.Dpdk.Mpmc.Admission.{
  Role, producer, consumer, Verdict, refused, granted, must_load, space, admit,
}
use go_data_structures.Dpdk.Mpmc.State.{
  Config, capacity, Mem, Request, Pc, calling, loading, storing, deciding, reserved, copied,
  returned, word, lane, other, advance, conclude, transfer, reserve, set_cache,
}
use go_data_structures.Dpdk.Mpmc.Intervals.{InOrder}
use go_data_structures.Dpdk.Mpmc.Room.{
  admitted, room, space-room, room_bounded, cached_enough, enough_for_all,
}

module _ {T : Type 0} (zeroed : T) (cfg : Config) where
  -- `n` actions of one call.
  unfoldable pub run : ℕ → Role → Pc T → Mem T → Mem T × Pc T
  unfolding advance
  run zero r p m = (m, p)
  run (suc n) r p m = let (m', p') = advance zeroed cfg r p m in run n r p' m'

  -- The call has returned with the `k` slots from `h` on, and has published them.
  abbrev pub Returned : Role → ℕ → ℕ → Mem T × Pc T → Type 0
  Returned r h k x =
      (n : ℕ) × (out : List T) × (x.1 ≡ returned h k n out) × ((lane r x.0).tail ≡ h + k)

  run-returned :
      (j : ℕ) (r : Role) (h k n : ℕ) (out : List T) (m : Mem T)
      → run j r (returned h k n out) m ≡ (m, returned h k n out)
  unfolding run advance
  run-returned zero r h k n out m = refl
  run-returned (suc j) r h k n out m = run-returned j r h k n out m

  -- Further actions change nothing.
  Returned-later :
      (n j : ℕ) (r : Role) (p : Pc T) (m : Mem T) (h k : ℕ)
      → Returned r h k (run n r p m)
      → Returned r h k (run (n + j) r p m)
  unfolding run advance
  Returned-later zero j r p m h k (n, out, e, t) =
      let z : 0 + j ≡ j = omega arith in rw (z, e, run-returned j r h k n out m) (n, out, refl, t)
  Returned-later (suc n) j r p m h k x =
      let (m', p') = advance zeroed cfg r p m in
      let z : suc n + j ≡ suc (n + j) = omega arith in rw z (Returned-later n j r p' m' h k x)

  -- A call whose turn it is publishes.
  copied_alone :
      (r : Role) (s k n : ℕ) (out : List T) (m : Mem T)
      → (lane r m).tail ≡ s
      → Returned r s k (run 1 r (copied s k n out) m)
  unfolding run advance
  copied_alone producer s k n out m e =
      let t : (word m.producers.tail == word s) ≡ true = ground arith in
      rw (lane, t) (n, out, refl, refl)
  copied_alone consumer s k n out m e =
      let t : (word m.consumers.tail == word s) ≡ true = ground arith in
      rw (lane, t) (n, out, refl, refl)

  reserved_alone :
      (r : Role) (q : Request T) (s k n : ℕ) (m : Mem T)
      → (lane r m).tail ≡ s
      → Returned r s k (run 2 r (reserved q s k n) m)
  unfolding run advance transfer
  reserved_alone producer q s k n m e =
      copied_alone producer s k n [] (transfer zeroed producer cfg q s k m).1 e
  reserved_alone consumer q s k n m e =
      copied_alone consumer s k n (transfer zeroed consumer cfg q s k m).0
        (transfer zeroed consumer cfg q s k m).1 e

  -- A verdict that ends the call, with `k` slots.
  data Settles : ℕ → Verdict → Type 0 where
    refuses : (n : ℕ) → Settles 0 (refused n)
    allows : (k n : ℕ) → Settles k (granted k n)

  admit-Settles :
      (q : Request T) (room : ℕ)
      → room ≤ capacity cfg
      → Settles (admitted q room) (admit (capacity cfg) q.requested q.fixed room)
  unfolding admit admitted
  admit-Settles q room h =
      let e : ltb (capacity cfg) room ≡ false = ground arith in
      elim (Bool-cases (q.fixed && ltb room q.requested)) [
        | inl d ↦ rw (e, d) (refuses room)
        | inr d ↦ elim (Bool-cases (min q.requested room == 0)) [
          | inl f ↦ let z : min q.requested room ≡ 0 = ground arith in rw (e, d, z) (refuses room)
          | inr f ↦ rw (e, d, f) (allows (min q.requested room) (room - min q.requested room))
        ]
      ]

  module _ (r : Role) (m : Mem T) (q : Request T) (alone : (lane r m).tail ≡ (lane r m).head) where
    -- The compare-and-swap succeeds, and nobody is to be waited for.
    concluded_alone :
        (k : ℕ) (v : Verdict)
        → Settles k v
        → Returned r
            (lane r m).head
            k
            (run 2 r (conclude r q (lane r m).head v m).1 (conclude r q (lane r m).head v m).0)
    unfolding run advance conclude
    concluded_alone k v (refuses n) = (n, [], refl, omega (arith, alone))
    concluded_alone k v (allows _ n) =
        let t : (word (lane r m).head == word (lane r m).head) ≡ true = ground arith in
        rw t (reserved_alone r q (lane r m).head k n (reserve r q k m) (kept r ∙ alone))
      where
        kept : (r' : Role) → (lane r' (reserve r' q k m)).tail ≡ (lane r' m).tail
        kept producer = refl
        kept consumer = refl

    decided_alone :
        (p : ℕ)
        → space r (capacity cfg) (word p) (word (lane r m).head) ≤ capacity cfg
        → Returned r
            (lane r m).head
            (admitted q (space r (capacity cfg) (word p) (word (lane r m).head)))
            (run 3 r (deciding q (lane r m).head p) m)
    unfolding run advance
    decided_alone p h =
        concluded_alone (admitted q (space r (capacity cfg) (word p) (word (lane r m).head)))
          (admit (capacity cfg) q.requested q.fixed
            (space r (capacity cfg) (word p) (word (lane r m).head)))
          (admit-Settles q (space r (capacity cfg) (word p) (word (lane r m).head)) h)

  storing_alone :
      (r : Role) (m : Mem T) (q : Request T) (p : ℕ)
      → (lane r m).tail ≡ (lane r m).head
      → space r (capacity cfg) (word p) (word (lane r m).head) ≤ capacity cfg
      → Returned r
          (lane r m).head
          (admitted q (space r (capacity cfg) (word p) (word (lane r m).head)))
          (run 4 r (storing q (lane r m).head p) m)
  unfolding run advance
  storing_alone producer m q p e h = decided_alone producer (set_cache producer p m) q e p h
  storing_alone consumer m q p e h = decided_alone consumer (set_cache consumer p m) q e p h

  loading_alone :
      (r : Role) (m : Mem T) (q : Request T) (x : ℕ)
      → (lane r m).tail ≡ (lane r m).head
      → space r (capacity cfg) (word (lane (other r) m).tail) (word (lane r m).head) ≤ capacity cfg
      → Returned r
          (lane r m).head
          (admitted q
            (space r (capacity cfg) (word (lane (other r) m).tail) (word (lane r m).head)))
          (run 5 r (loading q (lane r m).head x) m)
  unfolding run advance
  loading_alone r m q x e h = elim (Bool-cases (word (lane (other r) m).tail == word x)) [
    | inl t ↦ rw t (
        Returned-later 3 1 r (deciding q (lane r m).head (lane (other r) m).tail) m (lane r m).head
          (admitted q
            (space r (capacity cfg) (word (lane (other r) m).tail) (word (lane r m).head)))
          (decided_alone r m q e (lane (other r) m).tail h))
    | inr t ↦ rw t (storing_alone r m q (lane (other r) m).tail e h)
  ]

  module _ (c : IsCapacity (cfg.mask + 1)) where
    -- A call that runs by itself from a state in order, while no other call of its side is in
    -- progress, that asks for at most a capacity and whose cached position is not more than a cycle
    -- less a capacity old, returns within seven actions. It gets, and publishes, what its request is
    -- to get of the slots that there are: the cached position, where the code relies on it, changes
    -- nothing.
    pub alone_returns :
        (r : Role) (m : Mem T) (q : Request T)
        → InOrder (capacity cfg) producer m
        → InOrder (capacity cfg) consumer m
        → (lane r m).tail ≡ (lane r m).head
        → q.requested ≤ capacity cfg
        → (lane (other r) m).tail + capacity cfg < (lane r m).cache + 2 ^ 32
        → Returned r (lane r m).head (admitted q (room cfg r m)) (run 7 r (calling q) m)
    unfolding run advance
    alone_returns r m q a b e h f =
        let exactly = space-room cfg c r m a b in
        let small = room_bounded cfg c r m a b in
        elim (Bool-cases (
          must_load r q.exact (capacity cfg) q.requested (word (lane r m).head)
            (word (lane r m).cache))) [
              | inl t ↦
                  rw t (rw exactly at (loading_alone r m q (lane r m).cache e (rw exactly small)))
              | inr t ↦
                  let (l, u) = cached_enough cfg c r m q a b h f t in
                  rw t (
                    Returned-later 3 2 r (deciding q (lane r m).head (lane r m).cache) m
                      (lane r m).head (admitted q (room cfg r m))
                      (rw (enough_for_all cfg c q _ _ l u) at
                        (decided_alone r m q e (lane r m).cache (omega arith))))
            ]
