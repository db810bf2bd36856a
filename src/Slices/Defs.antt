-- ===== src/Slices/Defs.antt =====
-- xslices/slices.go: the loops of `Unique` and `Partition`. `append` puts an item behind a slice.
use go_data_structures.Base.{Bool, List, [], ◌∷◌, ◌++◌, ◌≡◌, if◌then◌else◌}
use go_data_structures.Set.Maps.{has, insert}

module _ {K : Type 0} (discrete : (x y : K) → Dec (x ≡ y)) where
  -- The loop of `Unique`, from the items seen and those kept so far.
  unfoldable pub unique_from : List K → List K → List K → List K
  unique_from seen kept [] = kept
  unique_from seen kept (x ∷ xs) =
      if has discrete x seen
      then unique_from seen kept xs
      else unique_from (insert discrete x seen) (kept ++ (x ∷ [])) xs

  -- `Unique`
  unfoldable pub unique : List K → List K
  unfolding unique_from
  unique xs = unique_from [] [] xs

module _ {K : Type 0} (p : K → Bool) where
  -- The loop of `Partition`, from the items of either kind so far.
  unfoldable pub partition_from : List K → List K → List K → List K × List K
  partition_from ts fs [] = (ts, fs)
  partition_from ts fs (x ∷ xs) =
      if p x then partition_from (ts ++ (x ∷ [])) fs xs else partition_from ts (fs ++ (x ∷ [])) xs

  -- `Partition`
  unfoldable pub partition : List K → List K × List K
  unfolding partition_from
  partition xs = partition_from [] [] xs
