-- ===== src/Workq/Wait/Tests.antt =====
-- Caller 7 registers and parks, and a wake chooses it.
use go_data_structures.Base.{
  ℕ, ◌+◌, ◌^◌, ◌≤◌, ◌<◌, ◌≡◌, refl, arith, Bool, false, List, [], ◌∷◌, ◌++◌, length, some,
}
use go_data_structures.Workq.Wait.Word.{pollers, parked, closed}
use go_data_structures.Workq.Wait.Side.{
  Side, register, wake_one, leave_polling, enlist, leave_list, take_token, wake_group,
}
use go_data_structures.Workq.Wait.Callers.{
  System, times, empty_system, Reach, start, registers, enlists,
}
use go_data_structures.Workq.Wait.Counted.{registered}
use go_data_structures.Workq.Wait.Safety.{IsSome, callers_counted, transitions_succeed}

abbrev registered_side : Side
registered_side = record { word = 1; list = []; tokens = λ i. 0 }

abbrev parked_side : Side
parked_side = record { word = 2 ^ 32; list = 7 ∷ []; tokens = λ i. 0 }

abbrev parked_system : System
parked_system = record { side = parked_side; polling = []; chosen = [] }

register_once : register empty_system.side ≡ (false, registered_side)
unfolding register closed
register_once = refl

park_once : enlist 7 false registered_side ≡ some (false, parked_side)
unfolding enlist closed pollers
park_once = refl

parked-Reach : Reach parked_system
parked-Reach =
    enlists [] 7 [] false (registers 7 start (refl, omega arith) register_once) refl park_once

callers_counted_example :
    (pollers parked_system.side.word ≡ registered parked_system)
    × (parked parked_system.side.word ≡ length parked_system.side.list)
    × ((i : ℕ) → parked_system.side.tokens i ≡ times i parked_system.chosen)
    × ((i : ℕ)
        → times i parked_system.polling
            + times i parked_system.chosen
            + times i parked_system.side.list
          ≤ 1)
callers_counted_example = callers_counted parked-Reach

transitions_succeed_example :
    IsSome (wake_one parked_side)
    × ((target : ℕ) → target < 2 ^ 31 → IsSome (wake_group target parked_side))
    × ((xs : List ℕ) (i : ℕ) (ys : List ℕ) (at_oldest : Bool)
        → parked_system.polling ≡ xs ++ i ∷ ys
        → IsSome (enlist i at_oldest parked_side) × IsSome (leave_polling parked_side))
    × ((i : ℕ) → 0 < times i parked_side.list → IsSome (leave_list i parked_side))
    × ((xs : List ℕ) (i : ℕ) (ys : List ℕ)
        → parked_system.chosen ≡ xs ++ i ∷ ys
        → IsSome (take_token i parked_side))
transitions_succeed_example = transitions_succeed parked-Reach
