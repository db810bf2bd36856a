-- ===== src/Set/Maps.antt =====
-- The keys of a Go map whose values are empty: what the built-in operations on it do. Keys are
-- compared by `discrete`, so a key equals itself, which a NaN does not. The order of a range over
-- the map is not fixed in Go; here it is that of the list, and no theorem depends on it.
use go_data_structures.Base.{Bool, true, false, ◌||◌, not, List, [], ◌∷◌, ◌≡◌, if◌then◌else◌}

abbrev pub is_yes {ℓ} : {A : Type ℓ} → Dec A → Bool
is_yes (yes a) = true
is_yes (no f) = false

module _ {K : Type 0} (discrete : (x y : K) → Dec (x ≡ y)) where
  -- `x == y`
  abbrev pub same : K → K → Bool
  same x y = is_yes (discrete x y)

  -- `_, ok := m[x]`
  unfoldable pub has : K → List K → Bool
  has x [] = false
  has x (y ∷ ys) = same x y || has x ys

  -- `m[x] = struct{}{}`
  unfoldable pub insert : K → List K → List K
  unfolding has
  insert x ys = if has x ys then ys else x ∷ ys

  -- `delete(m, x)`
  unfoldable pub delete : K → List K → List K
  delete x [] = []
  delete x (y ∷ ys) = let rest = delete x ys in if same x y then rest else y ∷ rest

  -- `for x := range xs { if p(x) { m[x] = struct{}{} } }`
  unfoldable pub insert_if : (K → Bool) → List K → List K → List K
  unfolding insert
  insert_if p [] m = m
  insert_if p (x ∷ xs) m = insert_if p xs (if p x then insert x m else m)

  -- `for x := range xs { delete(m, x) }`
  unfoldable pub delete_each : List K → List K → List K
  unfolding delete
  delete_each [] m = m
  delete_each (x ∷ xs) m = delete_each xs (delete x m)

  -- `for x := range xs { if x is in m { delete(m, x); continue }; m[x] = struct{}{} }`
  unfoldable pub toggle_each : List K → List K → List K
  unfolding has delete insert
  toggle_each [] m = m
  toggle_each (x ∷ xs) m = toggle_each xs (if has x m then delete x m else insert x m)

-- `maps.DeleteFunc`
unfoldable pub delete_func : {K : Type 0} → (K → Bool) → List K → List K
delete_func p [] = []
delete_func p (x ∷ xs) = let rest = delete_func p xs in if p x then rest else x ∷ rest

-- `for x := range xs { if p(x) { return true } }; return false`
unfoldable pub any_of : {K : Type 0} → (K → Bool) → List K → Bool
any_of p [] = false
any_of p (x ∷ xs) = if p x then true else any_of p xs

-- `for x := range xs { if !p(x) { return false } }; return true`
unfoldable pub all_of : {K : Type 0} → (K → Bool) → List K → Bool
all_of p [] = true
all_of p (x ∷ xs) = if not (p x) then false else all_of p xs
