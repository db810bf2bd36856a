-- ===== src/Dpdk/Mpmc/Actions.antt =====
-- Every action of a call is a move: what the tests on words say of the positions.
use go_data_structures.Base.{
  ℕ, ◌+◌, ◌-◌, ◌^◌, ◌≤◌, ◌<◌, ◌≡◌, refl, sym, arith, Bool, true, ◌&&◌, List, ltb, ◌==◌, min,
  Bool-cases, inl, inr,
}
use go_data_structures.Dpdk.Capacity.{IsCapacity, capacity_bounds}
use go_data_structures.Dpdk.Mpmc.Admission.{
  Role, producer, consumer, Verdict, again, refused, granted, must_load, space, admit, free_slots,
  filled_slots,
}
use go_data_structures.Dpdk.Mpmc.State.{
  Config, capacity, Mem, Request, Pc, idle, calling, at_head, loading, storing, deciding, reserved,
  copied, returned, word, lane, other, set_tail, conclude, advance,
}
use go_data_structures.Dpdk.Mpmc.System.{IsFresh}
use go_data_structures.Dpdk.Mpmc.Intervals.{
  Sees, Lies, limit, InOrder, Move, looks, stores, waits, grants, copies, publishes,
}

-- What a verdict says.
pub data Judged (capacity requested room : ℕ) (fixed : Bool) : Verdict → Type 0 where
  unsure : capacity < room → Judged capacity requested room fixed again
  denied : (n : ℕ) → Judged capacity requested room fixed (refused n)
  allowed :
      (k : ℕ)
      → 0 < k
      → k ≤ requested
      → k ≤ room
      → room ≤ capacity
      → (fixed ≡ true → k ≡ requested)
      → Judged capacity requested room fixed (granted k (room - k))

pub admit-Judged :
    (capacity requested room : ℕ) (fixed : Bool)
    → Judged capacity requested room fixed (admit capacity requested fixed room)
unfolding admit
admit-Judged capacity requested room fixed = elim (Bool-cases (ltb capacity room)) [
  | inl e ↦ elim (Bool-cases (requested == 0)) [
    | inl d ↦ rw (e, d) (denied capacity)
    | inr d ↦ rw (e, d) (unsure (ground arith))
  ]
  | inr e ↦ elim (Bool-cases (fixed && ltb room requested)) [
    | inl d ↦ rw (e, d) (denied room)
    | inr d ↦ elim (Bool-cases (min requested room == 0)) [
      | inl f ↦ rw (e, d, f) (denied room)
      | inr f ↦
          rw (e, d, f)
            (allowed (min requested room) (ground arith) (omega arith) (omega arith) (ground arith)
              (λ t. ground arith))
    ]
  ]
]

-- Words that agree stand for the same position, when neither is a cycle away.
word_eq : (a b : ℕ) → a ≤ b → b < a + 2 ^ 32 → (word b == word a) ≡ true → b ≡ a
word_eq a b h k e = ground arith

pub capacity_lem : (cfg : Config) → IsCapacity (cfg.mask + 1) → capacity cfg ≡ cfg.mask + 1
capacity_lem cfg c = omega (arith, capacity_bounds c)

module _ {T : Type 0} (cfg : Config) (c : IsCapacity (cfg.mask + 1)) where
  -- The room that is computed from the words is there, when it is at most the capacity.
  room_lem :
      (r : Role) (m : Mem T) (p : ℕ)
      → InOrder (capacity cfg) producer m
      → InOrder (capacity cfg) consumer m
      → p ≤ (lane (other r) m).tail
      → (lane (other r) m).tail + capacity cfg < p + 2 ^ 32
      → space r (capacity cfg) (word p) (word (lane r m).head) ≤ capacity cfg
      → (lane r m).head + space r (capacity cfg) (word p) (word (lane r m).head)
        ≤ limit (capacity cfg) r m
  unfolding space free_slots filled_slots
  room_lem producer m p a b h k l = omega (arith, capacity_lem cfg c, capacity_bounds c)
  room_lem consumer m p a b h k l = omega (arith, capacity_lem cfg c, capacity_bounds c)

  conclude-Move :
      (zeroed : T) (r : Role) (m : Mem T) (q : Request T) (h p : ℕ)
      → InOrder (capacity cfg) producer m
      → InOrder (capacity cfg) consumer m
      → Sees r m (deciding q h p)
      → IsFresh cfg r m (deciding q h p)
      → {v : Verdict}
      → Judged (capacity cfg) q.requested (space r (capacity cfg) (word p) (word h)) q.fixed v
      → Move zeroed cfg r m (deciding q h p) (conclude r q h v m).0 (conclude r q h v m).1
  unfolding conclude
  conclude-Move zeroed r m q h p a b s f (unsure l) = looks tt tt s.0
  conclude-Move zeroed r m q h p a b s f (denied n) = looks tt (refl, refl) tt
  conclude-Move zeroed r m q h p a b (i, l, o) (g, g') (allowed k u w x y z) =
      elim (Bool-cases (word (lane r m).head == word h)) [
        | inl e ↦
            let same : (lane r m).head ≡ h = word_eq h (lane r m).head l g e in
            let there = rw same at (room_lem r m p a b o g') in
            rw e (grants k _ i u w (omega (arith, there y, same)))
        | inr e ↦ rw e (looks tt tt i)
      ]

  published-Move :
      (zeroed : T) (r : Role) (m : Mem T) (s k n : ℕ) (out : List T)
      → InOrder (capacity cfg) producer m
      → InOrder (capacity cfg) consumer m
      → Sees r m (copied s k n out)
      → Lies r m (copied s k n out)
      → (word (lane r m).tail == word s) ≡ true
      → Move zeroed cfg r m (copied s k n out) (set_tail r (s + k) m) (returned s k n out)
  published-Move zeroed producer m s k n out a b h l e = publishes h (
      sym (
        word_eq m.producers.tail s (l h).0
          (omega (arith, l h, capacity_lem cfg c, capacity_bounds c)) (ground arith)))
  published-Move zeroed consumer m s k n out a b h l e = publishes h (
      sym (
        word_eq m.consumers.tail s (l h).0
          (omega (arith, l h, capacity_lem cfg c, capacity_bounds c)) (ground arith)))

  -- The next action of a call, when its observations are recent enough, is a move.
  pub advance-Move :
      (zeroed : T) (r : Role) (m : Mem T) (p : Pc T)
      → InOrder (capacity cfg) producer m
      → InOrder (capacity cfg) consumer m
      → Sees r m p
      → Lies r m p
      → IsFresh cfg r m p
      → Move zeroed cfg r m p (advance zeroed cfg r p m).0 (advance zeroed cfg r p m).1
  unfolding advance
  advance-Move zeroed r m idle a b s l f = waits
  advance-Move zeroed producer m (calling q) a b s l f = looks tt tt (s, omega arith)
  advance-Move zeroed consumer m (calling q) a b s l f = looks tt tt (s, omega arith)
  advance-Move zeroed r m (at_head q h) a b s l f =
      elim (Bool-cases
        (must_load r q.exact (capacity cfg) q.requested (word h) (word (lane r m).cache))) [
          | inl e ↦ rw e (looks tt tt s)
          | inr e ↦ rw e (looks tt tt (s.0, s.1, cached r a b))
        ]
    where
      cached :
          (r' : Role)
          → InOrder (capacity cfg) producer m
          → InOrder (capacity cfg) consumer m
          → (lane r' m).cache ≤ (lane (other r') m).tail
      cached producer a' b' = a'.2
      cached consumer a' b' = b'.2
  advance-Move zeroed r m (loading q h k) a b s l f =
      elim (Bool-cases (word (lane (other r) m).tail == word k)) [
        | inl e ↦ rw e (looks tt tt (s.0, s.1, omega arith))
        | inr e ↦ rw e (looks tt tt (s.0, s.1, omega arith))
      ]
  advance-Move zeroed r m (storing q h p) a b s l f = stores p s.2 tt tt s
  advance-Move zeroed r m (deciding q h p) a b s l f =
      conclude-Move zeroed r m q h p a b s f
        (admit-Judged (capacity cfg) q.requested (space r (capacity cfg) (word p) (word h)) q.fixed)
  advance-Move zeroed r m (reserved q s k n) a b h l f = copies
  advance-Move zeroed r m (copied s k n out) a b h l f =
      elim (Bool-cases (word (lane r m).tail == word s)) [
        | inl e ↦ rw e (published-Move zeroed r m s k n out a b h l e)
        | inr e ↦ rw e waits
      ]
  advance-Move zeroed r m (returned s k n out) a b h l f = waits
