-- ===== src/Dpdk/Mpmc/Room.antt =====
-- The slots that a call can get, from the position that it loads and from the one it has cached.
use go_data_structures.Base.{
  ℕ, ◌+◌, ◌-◌, ◌^◌, ◌≤◌, ◌<◌, ◌≡◌, ◌⊎◌, inl, inr, refl, lt_or_le, arith, Bool, true, false, ◌&&◌,
  ◌||◌, min, ltb, ◌==◌, if◌then◌else◌, sub_u32,
}
use go_data_structures.Dpdk.Capacity.{IsCapacity, capacity_bounds}
use go_data_structures.Dpdk.Mpmc.Admission.{
  Role, producer, consumer, must_load, must_load_producer, must_load_consumer, space, free_slots,
  filled_slots,
}
use go_data_structures.Dpdk.Mpmc.State.{Config, capacity, Mem, Request, word, lane, other}
use go_data_structures.Dpdk.Mpmc.Intervals.{limit, InOrder}
use go_data_structures.Dpdk.Mpmc.Actions.{capacity_lem}

-- How many slots a call is to get of those that there are.
unfoldable pub admitted : {T : Type 0} → Request T → ℕ → ℕ
admitted q room = if q.fixed && ltb room q.requested then 0 else min q.requested room

module _ {T : Type 0} where
  -- A fixed request is for all of its slots or for none.
  pub admitted_fixed :
      (q : Request T) (room : ℕ)
      → q.fixed ≡ true
      → ((room < q.requested) × (admitted q room ≡ 0))
        ⊎ ((q.requested ≤ room) × (admitted q room ≡ q.requested))
  unfolding admitted
  admitted_fixed q room e = rw e (elim (lt_or_le room q.requested) [
    | inl h ↦ inl (h, ground arith)
    | inr h ↦ inr (h, ground arith)
  ])

  pub admitted_partial :
      (q : Request T) (room : ℕ) → q.fixed ≡ false → admitted q room ≡ min q.requested room
  unfolding admitted
  admitted_partial q room e = rw e refl

last_false : (x y z : Bool) → (x || y || z) ≡ false → z ≡ false
last_false true y z e = absurd (cc e)
last_false false true z e = absurd (cc e)
last_false false false z e = e

ltb-false : (x y : ℕ) → ltb x y ≡ false → y ≤ x
ltb-false x y e = ground arith

module _ {T : Type 0} (cfg : Config) where
  -- The slots between a side's head and its limit.
  abbrev pub room : Role → Mem T → ℕ
  room r m = limit (capacity cfg) r m - (lane r m).head

  module _ (c : IsCapacity (cfg.mask + 1)) where
    -- The published position gives the room that there is.
    pub space-room :
        (r : Role) (m : Mem T)
        → InOrder (capacity cfg) producer m
        → InOrder (capacity cfg) consumer m
        → space r (capacity cfg) (word (lane (other r) m).tail) (word (lane r m).head) ≡ room r m
    unfolding space free_slots filled_slots
    space-room producer m a b = omega (arith, capacity_lem cfg c, capacity_bounds c)
    space-room consumer m a b = omega (arith, capacity_lem cfg c, capacity_bounds c)

    pub room_bounded :
        (r : Role) (m : Mem T)
        → InOrder (capacity cfg) producer m
        → InOrder (capacity cfg) consumer m
        → room r m ≤ capacity cfg
    room_bounded producer m a b = omega arith
    room_bounded consumer m a b = omega arith

    -- The cached position, when the code trusts it, gives enough room, and no more than there is.
    pub cached_enough :
        (r : Role) (m : Mem T) (q : Request T)
        → InOrder (capacity cfg) producer m
        → InOrder (capacity cfg) consumer m
        → q.requested ≤ capacity cfg
        → (lane (other r) m).tail + capacity cfg < (lane r m).cache + 2 ^ 32
        → must_load r q.exact
            (capacity cfg)
            q.requested
            (word (lane r m).head)
            (word (lane r m).cache)
          ≡ false
        → (q.requested ≤ space r (capacity cfg) (word (lane r m).cache) (word (lane r m).head))
          × (space r (capacity cfg) (word (lane r m).cache) (word (lane r m).head) ≤ room r m)
    unfolding space free_slots filled_slots must_load must_load_producer must_load_consumer
    cached_enough producer m q a b h f e =
        let l : sub_u32 (word m.producers.head) (word m.producers.cache)
            ≤ sub_u32 (capacity cfg) q.requested =
          ltb-false _ _ (last_false q.exact (q.requested == 0) _ e) in
        (
          omega (arith, capacity_lem cfg c, capacity_bounds c),
          omega (arith, capacity_lem cfg c, capacity_bounds c),
        )
    cached_enough consumer m q a b h f e =
        let l : sub_u32 (sub_u32 (word m.consumers.cache) (word m.consumers.head)) q.requested
            ≤ sub_u32 (capacity cfg) q.requested =
          ltb-false _ _ (last_false q.exact (q.requested == 0) _ e) in
        (
          omega (arith, capacity_lem cfg c, capacity_bounds c),
          omega (arith, capacity_lem cfg c, capacity_bounds c),
        )

    pub enough_for_all :
        (q : Request T) (a b : ℕ) → q.requested ≤ a → a ≤ b → admitted q a ≡ admitted q b
    unfolding admitted
    enough_for_all q a b h l =
        let e : ltb a q.requested ≡ false = ground arith in
        let d : ltb b q.requested ≡ false = ground arith in rw (e, d) (ground arith)
