-- ===== src/Workq/Wait/Callers.antt =====
-- Callers that go through the transitions of one side, in any order.
use go_data_structures.Base.{
  ℕ, ◌+◌, ◌-◌, ◌^◌, ◌<◌, ◌≡◌, Bool, false, List, [], ◌∷◌, ◌++◌, length, take, some, ◌==◌,
  if◌then◌else◌,
}
use go_data_structures.Workq.Wait.Side.{
  Side, register, wake_one, leave_polling, enlist, leave_list, take_token, set_closed, wake_group,
}

-- A side, with the callers that are registered, and those that a wake has chosen, which have a
-- token to receive.
pub record System : Type 0 where
  pub side : Side
  pub polling : List ℕ
  pub chosen : List ℕ

-- How often a caller is on a list.
abbrev pub times : ℕ → List ℕ → ℕ
times i [] = 0
times i (j ∷ list) = (if j == i then 1 else 0) + times i list

-- A caller in none of the lists, and room in the counts for it.
abbrev pub IsNew : ℕ → System → Type 0
IsNew i s =
    (times i s.polling + times i s.chosen + times i s.side.list ≡ 0)
    × (length s.polling + length s.chosen + length s.side.list + 1 < 2 ^ 31)

-- The callers that a wake took off the list are chosen.
abbrev pub choose : Side → System → System
choose side s = record {
  side = side;
  polling = s.polling;
  chosen = take (length s.side.list - length side.list) s.side.list ++ s.chosen;
}

abbrev pub empty_system : System
empty_system = record {
  side = record { word = 0; list = []; tokens = λ i. 0 };
  polling = [];
  chosen = [];
}

pub data Reach : System → Type 0 where
  start : Reach empty_system
  registers :
      {s : System} {side : Side} (i : ℕ)
      → Reach s
      → IsNew i s
      → register s.side ≡ (false, side)
      → Reach (record s { side = side; polling = i ∷ s.polling })
  enlists :
      {s : System} {side : Side} (xs : List ℕ) (i : ℕ) (ys : List ℕ) (at_oldest : Bool)
      → Reach s
      → s.polling ≡ xs ++ i ∷ ys
      → enlist i at_oldest s.side ≡ some (false, side)
      → Reach (record s { side = side; polling = xs ++ ys })
  wakes :
      {s : System} {side : Side} {sent : Bool}
      → Reach s
      → wake_one s.side ≡ some (sent, side)
      → Reach (choose side s)
  wakes_group :
      {s : System} {side : Side} {sent : Bool} (target : ℕ)
      → Reach s
      → target < 2 ^ 31
      → wake_group target s.side ≡ some (sent, side)
      → Reach (choose side s)
  receives :
      {s : System} {side : Side} (xs : List ℕ) (i : ℕ) (ys : List ℕ)
      → Reach s
      → s.chosen ≡ xs ++ i ∷ ys
      → take_token i s.side ≡ some side
      → Reach (record { side = side; polling = i ∷ s.polling; chosen = xs ++ ys })
  leaves :
      {s : System} {side : Side} (xs : List ℕ) (i : ℕ) (ys : List ℕ)
      → Reach s
      → s.polling ≡ xs ++ i ∷ ys
      → leave_polling s.side ≡ some side
      → Reach (record s { side = side; polling = xs ++ ys })
  gives_up :
      {s : System} {side : Side} (i : ℕ)
      → Reach s
      → 0 < times i s.side.list
      → leave_list i s.side ≡ some side
      → Reach (record s { side = side })
  closes : {s : System} → Reach s → Reach (record s { side = (set_closed s.side).1 })
