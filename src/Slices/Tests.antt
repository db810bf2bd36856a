-- ===== src/Slices/Tests.antt =====
-- Runs on slices of numbers.
use go_data_structures.Base.{ℕ, [], ◌∷◌, ◌≡◌, ltb}
use native.Mathlib.Decide.{ℕ_discrete}
use go_data_structures.Set.Maps.{has}
use go_data_structures.Set.Laws.{IsUnique}
use go_data_structures.Slices.Defs.{unique, partition}
use go_data_structures.Slices.Unique.{unique_lem}
use go_data_structures.Slices.Partition.{select, partition_lem}

unique_lem_example :
    ((x : ℕ)
      → has ℕ_discrete x (unique ℕ_discrete (3 ∷ 1 ∷ 3 ∷ [])) ≡ has ℕ_discrete x (3 ∷ 1 ∷ 3 ∷ []))
    × IsUnique ℕ_discrete (unique ℕ_discrete (3 ∷ 1 ∷ 3 ∷ []))
unique_lem_example = unique_lem ℕ_discrete (3 ∷ 1 ∷ 3 ∷ [])

partition_lem_example : partition (ltb 2) (3 ∷ 1 ∷ 4 ∷ []) ≡ (3 ∷ 4 ∷ [], 1 ∷ [])
unfolding select
partition_lem_example = partition_lem (ltb 2) (3 ∷ 1 ∷ 4 ∷ [])
