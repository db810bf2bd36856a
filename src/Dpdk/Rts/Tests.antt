-- ===== src/Dpdk/Rts/Tests.antt =====
-- A relaxed side on which the second of two calls finishes first.
use go_data_structures.Base.{ℕ, zero, suc, ◌-◌, ◌^◌, ◌≤◌, ◌<◌, ◌≡◌, refl, arith, [], ◌∷◌}
use go_data_structures.Dpdk.Words.{pack, unpack_pos, unpack_cnt, next_tail, is_raised, unpack-pack}
use go_data_structures.Dpdk.Rts.Side.{
  Side, Pc, working, raising, finished, advance, reserve, empty_side, Reach, start, reserves, acts,
}
use go_data_structures.Dpdk.Rts.Tally.{open_one, start_of, tally, Every}
use go_data_structures.Dpdk.Rts.Safety.{finished_is_published}

-- `n` actions of one call.
abbrev run : ℕ → Pc → Side → Side × Pc
run zero p m = (m, p)
run (suc n) p m = let (m', p') = advance p m in run n p' m'

abbrev both_reserved : Side
both_reserved = reserve 2 (reserve 3 empty_side)

-- The second call's finish moves no tail, and ends there.
abbrev second : Side × Pc
second = run 3 (working 3) both_reserved

abbrev first : Side × Pc
first = run 3 (working 0) second.0

first-Reach : Reach first.0 (first.1 ∷ finished ∷ [])
unfolding advance pack unpack_pos next_tail
first-Reach =
    acts [] _ (finished ∷ [])
      (acts [] _ (finished ∷ [])
        (acts [] (working 0) (finished ∷ [])
          (acts (working 0 ∷ []) _ []
            (acts (working 0 ∷ []) _ []
              (acts (working 0 ∷ []) (working 3) []
                (reserves 2 (omega arith) (reserves 3 (omega arith) start)) tt)
              tt)
            (omega arith, omega arith))
          tt)
        tt)
      (omega arith, omega arith)

finished_is_published_example :
    (first.0.mirror ≤ first.0.tail.position)
    × Every (λ p. 0 < open_one p → first.0.tail.position ≤ start_of p) (first.1 ∷ finished ∷ [])
    × (tally open_one (first.1 ∷ finished ∷ []) ≡ 0 → first.0.tail.position ≡ first.0.head.position)
finished_is_published_example = finished_is_published first-Reach

second_tail : (second.0.tail.position ≡ 0) × (second.1 ≡ finished)
unfolding advance pack unpack_pos next_tail
second_tail = (refl, refl)

first_tail : (first.0.tail.position ≡ 5) × (first.1 ≡ raising)
unfolding advance pack unpack_pos next_tail
first_tail = (refl, refl)

first_mirror : (run 3 first.1 first.0).0.mirror ≡ 5
unfolding advance pack unpack_pos next_tail is_raised
first_mirror = refl

unpack-pack_example :
    (unpack_pos (pack 5 (2 ^ 32 - 1)) ≡ 5)
    × (unpack_cnt (pack 5 (2 ^ 32 - 1)) ≡ 2 ^ 32 - 1)
    × (pack 5 (2 ^ 32 - 1) < 2 ^ 64)
unpack-pack_example = unpack-pack 5 (2 ^ 32 - 1) (omega arith) (omega arith)
