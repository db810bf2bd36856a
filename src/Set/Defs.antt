-- ===== src/Set/Defs.antt =====
-- set/set.go: `Set[K]` and its methods. A nil map has no keys, and every method that writes to a
-- map makes one first. A sequence (`iter.Seq`) is the list that it yields.
use go_data_structures.Base.{
  ℕ, Bool, true, false, ◌&&◌, not, List, [], Option, none, some, ◌≡◌, length, ltb, ◌==◌,
  if◌then◌else◌,
}
use go_data_structures.Set.Maps.{
  has, insert, delete, insert_if, delete_each, toggle_each, delete_func, any_of, all_of,
}

-- `Set`: the keys of its map, or nil.
pub record Set (K : Type 0) : Type 0 where
  pub entries : Option (List K)

abbrev pub keys_of : {K : Type 0} → Option (List K) → List K
keys_of none = []
keys_of (some xs) = xs

abbrev pub map_of : {K : Type 0} → (List K → List K) → Option (List K) → Option (List K)
map_of f none = none
map_of f (some xs) = some (f xs)

abbrev pub always : {K : Type 0} → K → Bool
always x = true

abbrev pub of_keys : {K : Type 0} → List K → Set K
of_keys xs = record { entries = some xs }

module _ {K : Type 0} where
  -- A range over the entries.
  abbrev pub keys : Set K → List K
  keys s = keys_of s.entries

  -- `New`, and `Clear`, which does not look at the set
  unfoldable pub new : Set K
  new = of_keys []

  -- `ensureEntries`
  unfoldable pub ensure_entries : Set K → Set K
  ensure_entries s = of_keys (keys s)

  -- `Len`
  unfoldable pub len : Set K → ℕ
  len s = length (keys s)

  -- `IsEmpty`
  unfoldable pub is_empty : Set K → Bool
  unfolding len
  is_empty s = len s == 0

  -- `smallerFirst`
  unfoldable pub smaller_first : Set K → Set K → Set K × Set K
  unfolding len
  smaller_first first second =
      if ltb (len first) (len second) then (first, second) else (second, first)

  -- A call that deletes from the map does nothing to a nil one.
  abbrev pub change : (List K → List K) → Set K → Set K
  change f s = record { entries = map_of f s.entries }

  -- `RemoveFunc`
  unfoldable pub remove_func : (K → Bool) → Set K → Set K
  unfolding delete_func
  remove_func p s = change (delete_func p) s

  -- `ContainsFunc`
  unfoldable pub contains_func : (K → Bool) → Set K → Bool
  unfolding any_of
  contains_func p s = any_of p (keys s)

module _ {K : Type 0} (discrete : (x y : K) → Dec (x ≡ y)) where
  -- `Contains`
  unfoldable pub contains : K → Set K → Bool
  contains x s = has discrete x (keys s)

  -- `Add`
  unfoldable pub add : K → Set K → Set K
  unfolding ensure_entries
  add x s = of_keys (insert discrete x (keys (ensure_entries s)))

  -- `Of`, which `FromSlice` calls
  unfoldable pub of : List K → Set K
  of xs = of_keys (insert_if discrete always xs [])

  -- `AddAll`
  unfoldable pub add_all : List K → Set K → Set K
  unfolding ensure_entries
  add_all xs s = of_keys (insert_if discrete always xs (keys (ensure_entries s)))

  -- `Collect`
  unfoldable pub collect : List K → Set K
  unfolding new add_all
  collect xs = add_all xs new

  -- `Remove`
  unfoldable pub remove : K → Set K → Set K
  remove x s = change (delete discrete x) s

  -- `RemoveAll`
  unfoldable pub remove_all : List K → Set K → Set K
  remove_all xs s = change (delete_each discrete xs) s

  -- `Clone`
  unfoldable pub clone : Set K → Set K
  clone s = of_keys (insert_if discrete always (keys s) [])

  -- `Filter`
  unfoldable pub filter : (K → Bool) → Set K → Set K
  unfolding new
  filter p s = of_keys (insert_if discrete p (keys s) (keys new))

  -- `Difference`
  unfoldable pub difference : Set K → Set K → Set K
  unfolding new contains
  difference s other =
      of_keys (insert_if discrete (λ x. not (contains x other)) (keys s) (keys new))

  -- `Intersection`
  unfoldable pub intersection : Set K → Set K → Set K
  unfolding new contains
  intersection s other =
      let (smaller, larger) = smaller_first s other in
      of_keys (insert_if discrete (λ x. contains x larger) (keys smaller) (keys new))

  -- `Union`
  unfoldable pub union : Set K → Set K → Set K
  unfolding clone
  union s other =
      let (smaller, larger) = smaller_first s other in
      of_keys (insert_if discrete always (keys smaller) (keys (clone larger)))

  -- `Disjunction`
  unfoldable pub disjunction : Set K → Set K → Set K
  unfolding union intersection
  disjunction s other =
      of_keys (delete_each discrete (keys (intersection s other)) (keys (union s other)))

  -- `ContainsAll`
  unfoldable pub contains_all : List K → Set K → Bool
  unfolding contains
  contains_all xs s = all_of (λ x. contains x s) xs

  -- `IsSubset`
  unfoldable pub is_subset : Set K → Set K → Bool
  unfolding len contains_all
  is_subset s other = if ltb (len other) (len s) then false else contains_all (keys s) other

  -- `IsSuperset`
  unfoldable pub is_superset : Set K → Set K → Bool
  unfolding is_subset
  is_superset s other = is_subset other s

  -- `Equals`
  unfoldable pub equals : Set K → Set K → Bool
  unfolding len is_subset
  equals s other = len s == len other && is_subset s other

  -- `IsDisjoint`
  unfoldable pub is_disjoint : Set K → Set K → Bool
  unfolding contains
  is_disjoint s other =
      let (smaller, larger) = smaller_first s other in
      all_of (λ x. not (contains x larger)) (keys smaller)

  -- `Update`
  unfoldable pub update : Set K → Set K → Set K
  unfolding ensure_entries
  update other s = of_keys (insert_if discrete always (keys other) (keys (ensure_entries s)))

  -- `DifferenceUpdate`
  unfoldable pub difference_update : Set K → Set K → Set K
  difference_update other s = change (delete_each discrete (keys other)) s

  -- `IntersectionUpdate`
  unfoldable pub intersection_update : Set K → Set K → Set K
  unfolding contains
  intersection_update other s =
      let (smaller, larger) = smaller_first s other in
      of_keys (insert_if discrete (λ x. contains x larger) (keys smaller) [])

  -- `DisjunctionUpdate`. The flag says that both sets are one object.
  unfoldable pub disjunction_update : Bool → Set K → Set K → Set K
  unfolding new ensure_entries
  disjunction_update true other s = new
  disjunction_update false other s =
      of_keys (toggle_each discrete (keys other) (keys (ensure_entries s)))
