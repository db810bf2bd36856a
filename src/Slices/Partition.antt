-- ===== src/Slices/Partition.antt =====
-- `Partition` keeps the order on either side.
use go_data_structures.Base.{
  Bool, not, List, [], ◌∷◌, ◌++◌, ◌≡◌, sym, ap, ap₂, ◌∙◌, if◌then◌else◌, Bool-cases, inl, inr,
}
use mathlib.Core.List.{append-nil, append_assoc}
use go_data_structures.Slices.Defs.{partition_from, partition}

-- The items that satisfy a test, in their order.
unfoldable pub select : {K : Type 0} → (K → Bool) → List K → List K
select p [] = []
select p (x ∷ xs) = let rest = select p xs in if p x then x ∷ rest else rest

module _ {K : Type 0} (p : K → Bool) where
  partition_from_lem :
      (ts fs xs : List K)
      → partition_from p ts fs xs ≡ (ts ++ select p xs, fs ++ select (λ x. not (p x)) xs)
  unfolding partition_from select
  partition_from_lem ts fs [] = ap₂ (λ t f. (t, f)) (sym (append-nil ts)) (sym (append-nil fs))
  partition_from_lem ts fs (x ∷ xs) = elim (Bool-cases (p x)) [
    | inl e ↦ rw e (
        partition_from_lem (ts ++ (x ∷ [])) fs xs
        ∙ ap (λ t. (t, fs ++ select (λ y. not (p y)) xs)) (append_assoc ts (x ∷ []) (select p xs)))
    | inr e ↦ rw e (
        partition_from_lem ts (fs ++ (x ∷ [])) xs
        ∙ ap (λ f. (ts ++ select p xs, f)) (append_assoc fs (x ∷ []) (select (λ y. not (p y)) xs)))
  ]

  -- `Partition` returns the items that satisfy the predicate and those that do not, both in the
  -- order of the slice.
  pub partition_lem : (xs : List K) → partition p xs ≡ (select p xs, select (λ x. not (p x)) xs)
  unfolding partition
  partition_lem xs = partition_from_lem [] [] xs
