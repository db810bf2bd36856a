-- ===== src/Set/Tests.antt =====
-- Runs of sets of numbers.
use go_data_structures.Base.{ℕ, true, false, ◌&&◌, ◌||◌, not, [], ◌∷◌, some, ◌≡◌, ◌↔◌, refl, arith}
use native.Mathlib.Decide.{ℕ_discrete}
use go_data_structures.Set.Maps.{same, has}
use go_data_structures.Set.Defs.{
  Set, keys, contains, add, add_all, remove, remove_all, remove_func, filter, clone, difference,
  intersection, union, disjunction, update, difference_update, intersection_update,
  disjunction_update, is_subset, is_superset, equals, is_disjoint,
}
use go_data_structures.Set.Sizes.{IsPart}
use go_data_structures.Set.Membership.{IsValid, algebra_lem, updates_lem}
use go_data_structures.Set.Comparisons.{IsSame, IsApart, is_subset_lem, equals_lem, is_disjoint_lem}
use go_data_structures.Set.Edits.{edits_lem}

abbrev low : Set ℕ
low = record { entries = some (1 ∷ 2 ∷ []) }

abbrev high : Set ℕ
high = record { entries = some (3 ∷ 2 ∷ 4 ∷ []) }

low-IsValid : IsValid ℕ_discrete low
unfolding has ℕ_discrete
low-IsValid = (refl, (refl, tt))

high-IsValid : IsValid ℕ_discrete high
unfolding has ℕ_discrete
high-IsValid = (refl, (refl, (refl, tt)))

algebra_lem_example :
    (contains ℕ_discrete 2 (difference ℕ_discrete low high)
      ≡ (contains ℕ_discrete 2 low && not (contains ℕ_discrete 2 high)))
    × (contains ℕ_discrete 2 (intersection ℕ_discrete low high)
        ≡ (contains ℕ_discrete 2 low && contains ℕ_discrete 2 high))
    × (contains ℕ_discrete 2 (union ℕ_discrete low high)
        ≡ (contains ℕ_discrete 2 low || contains ℕ_discrete 2 high))
    × (contains ℕ_discrete 2 (disjunction ℕ_discrete low high) ≡ (
        (contains ℕ_discrete 2 low && not (contains ℕ_discrete 2 high))
        || (not (contains ℕ_discrete 2 low) && contains ℕ_discrete 2 high)))
algebra_lem_example = algebra_lem ℕ_discrete 2 low high

updates_lem_example :
    (contains ℕ_discrete 3 (update ℕ_discrete high low)
      ≡ contains ℕ_discrete 3 (union ℕ_discrete low high))
    × (contains ℕ_discrete 3 (difference_update ℕ_discrete high low)
        ≡ contains ℕ_discrete 3 (difference ℕ_discrete low high))
    × (contains ℕ_discrete 3 (intersection_update ℕ_discrete high low)
        ≡ contains ℕ_discrete 3 (intersection ℕ_discrete low high))
    × (contains ℕ_discrete 3 (disjunction_update ℕ_discrete false high low)
        ≡ contains ℕ_discrete 3 (disjunction ℕ_discrete low high))
updates_lem_example =
    updates_lem ℕ_discrete 3 low high false (λ e. absurd (ground arith)) high-IsValid

is_subset_lem_example :
    ((is_subset ℕ_discrete low high ≡ true) ↔ IsPart ℕ_discrete (keys low) (keys high))
    × (is_superset ℕ_discrete high low ≡ is_subset ℕ_discrete low high)
is_subset_lem_example = is_subset_lem ℕ_discrete low high low-IsValid

equals_lem_example : (equals ℕ_discrete low high ≡ true) ↔ IsSame ℕ_discrete low high
equals_lem_example = equals_lem ℕ_discrete low high low-IsValid high-IsValid

is_disjoint_lem_example : (is_disjoint ℕ_discrete low high ≡ true) ↔ IsApart ℕ_discrete low high
is_disjoint_lem_example = is_disjoint_lem ℕ_discrete low high

edits_lem_example :
    (contains ℕ_discrete 2 (add ℕ_discrete 5 low)
      ≡ (same ℕ_discrete 2 5 || contains ℕ_discrete 2 low))
    × (contains ℕ_discrete 2 (add_all ℕ_discrete (5 ∷ 5 ∷ []) low)
        ≡ (has ℕ_discrete 2 (5 ∷ 5 ∷ []) || contains ℕ_discrete 2 low))
    × (contains ℕ_discrete 2 (remove ℕ_discrete 5 low)
        ≡ (not (same ℕ_discrete 2 5) && contains ℕ_discrete 2 low))
    × (contains ℕ_discrete 2 (remove_all ℕ_discrete (5 ∷ 5 ∷ []) low)
        ≡ (not (has ℕ_discrete 2 (5 ∷ 5 ∷ [])) && contains ℕ_discrete 2 low))
    × (contains ℕ_discrete 2 (remove_func (λ x. true) low) ≡ (false && contains ℕ_discrete 2 low))
    × (contains ℕ_discrete 2 (filter ℕ_discrete (λ x. true) low)
        ≡ (true && contains ℕ_discrete 2 low))
    × (contains ℕ_discrete 2 (clone ℕ_discrete low) ≡ contains ℕ_discrete 2 low)
edits_lem_example = edits_lem ℕ_discrete 2 low 5 (5 ∷ 5 ∷ []) (λ x. true)
