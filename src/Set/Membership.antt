-- ===== src/Set/Membership.antt =====
-- What each method of a set does to its members, and that no key is there twice.
use go_data_structures.Base.{
  Bool, true, false, ◌&&◌, ◌||◌, not, List, [], ◌∷◌, Option, none, some, ◌≡◌, refl, sym, ap, ◌∙◌,
  arith,
}
use go_data_structures.Set.Maps.{has, delete, delete_each}
use go_data_structures.Set.Laws.{IsUnique, has-insert_if, has-delete_each, has-toggle_each}
use go_data_structures.Set.Defs.{
  Set, keys, new, ensure_entries, smaller_first, contains, clone, difference, intersection, union,
  disjunction, update, difference_update, intersection_update, disjunction_update, change, map_of,
  keys_of,
}

module _ {K : Type 0} (discrete : (x y : K) → Dec (x ≡ y)) where
  -- No key is there twice: what a Go map keeps.
  abbrev pub IsValid : Set K → Type 0
  IsValid s = IsUnique discrete (keys s)

  change_of :
      (f : List K → List K) (o : Option (List K)) → f [] ≡ [] → keys_of (map_of f o) ≡ f (keys_of o)
  change_of f none h = sym h
  change_of f (some xs) h = refl

  pub change_lem : (f : List K → List K) (s : Set K) → f [] ≡ [] → keys (change f s) ≡ f (keys s)
  change_lem f s = change_of f s.entries

  pub delete_each-nil : (xs : List K) → delete_each discrete xs [] ≡ []
  unfolding delete_each delete
  delete_each-nil [] = refl
  delete_each-nil (x ∷ xs) = delete_each-nil xs

  -- The order of the two sets does not matter to their intersection.
  smaller_both :
      (x : K) (s other : Set K)
      → (has discrete x (keys (smaller_first s other).0)
          && has discrete x (keys (smaller_first s other).1))
        ≡ (has discrete x (keys s) && has discrete x (keys other))
  unfolding smaller_first
  smaller_both x s other = ground arith

  smaller_either :
      (x : K) (s other : Set K)
      → (has discrete x (keys (smaller_first s other).0)
          || has discrete x (keys (smaller_first s other).1))
        ≡ (has discrete x (keys s) || has discrete x (keys other))
  unfolding smaller_first
  smaller_either x s other = ground arith

  module _ (x : K) (s other : Set K) where
    contains-difference :
        contains discrete x (difference discrete s other)
        ≡ (contains discrete x s && not (contains discrete x other))
    unfolding contains difference new has
    contains-difference =
        ground (arith, has-insert_if discrete (λ y. not (contains discrete y other)) x (keys s) [])

    contains-intersection :
        contains discrete x (intersection discrete s other)
        ≡ (contains discrete x s && contains discrete x other)
    unfolding contains intersection new has
    contains-intersection =
        let (smaller, larger) = smaller_first s other in
        ground (
          arith,
          has-insert_if discrete (λ y. contains discrete y larger) x (keys smaller) [],
          smaller_both x s other,
        )

    contains-union :
        contains discrete x (union discrete s other)
        ≡ (contains discrete x s || contains discrete x other)
    unfolding contains union clone has
    contains-union =
        let (smaller, larger) = smaller_first s other in
        ground (
          arith,
          has-insert_if discrete (λ y. true) x (keys smaller) (keys (clone discrete larger)),
          has-insert_if discrete (λ y. true) x (keys larger) [],
          smaller_either x s other,
        )

    contains-disjunction : contains discrete x (disjunction discrete s other) ≡ (
        (contains discrete x s && not (contains discrete x other))
        || (not (contains discrete x s) && contains discrete x other))
    unfolding disjunction contains
    contains-disjunction = ground (
      arith,
      has-delete_each discrete x (keys (intersection discrete s other))
          (keys (union discrete s other)),
      contains-intersection,
      contains-union,
    )

    -- `Difference`, `Intersection`, `Union` and `Disjunction` have the members that their names
    -- say, whichever of the two sets is the larger.
    pub algebra_lem :
        (contains discrete x (difference discrete s other)
          ≡ (contains discrete x s && not (contains discrete x other)))
        × (contains discrete x (intersection discrete s other)
            ≡ (contains discrete x s && contains discrete x other))
        × (contains discrete x (union discrete s other)
            ≡ (contains discrete x s || contains discrete x other))
        × (contains discrete x (disjunction discrete s other) ≡ (
            (contains discrete x s && not (contains discrete x other))
            || (not (contains discrete x s) && contains discrete x other)))
    algebra_lem = (contains-difference, contains-intersection, contains-union, contains-disjunction)

    contains-update :
        contains discrete x (update discrete other s)
        ≡ (contains discrete x s || contains discrete x other)
    unfolding contains update ensure_entries
    contains-update = ground (arith, has-insert_if discrete (λ y. true) x (keys other) (keys s))

    contains-difference_update :
        contains discrete x (difference_update discrete other s)
        ≡ (contains discrete x s && not (contains discrete x other))
    unfolding contains difference_update
    contains-difference_update =
        rw (change_lem (delete_each discrete (keys other)) s (delete_each-nil (keys other)))
          (ground (arith, has-delete_each discrete x (keys other) (keys s)))

    contains-intersection_update :
        contains discrete x (intersection_update discrete other s)
        ≡ (contains discrete x s && contains discrete x other)
    unfolding contains intersection_update has
    contains-intersection_update =
        let (smaller, larger) = smaller_first s other in
        ground (
          arith,
          has-insert_if discrete (λ y. contains discrete y larger) x (keys smaller) [],
          smaller_both x s other,
        )

    contains-disjunction_update :
        (same_object : Bool)
        → (same_object ≡ true → other ≡ s)
        → IsValid other
        → contains discrete x (disjunction_update discrete same_object other s) ≡ (
            (contains discrete x s && not (contains discrete x other))
            || (not (contains discrete x s) && contains discrete x other))
    unfolding contains disjunction_update has new ensure_entries
    contains-disjunction_update true h v =
        let one : has discrete x (keys other) ≡ has discrete x (keys s) =
          ap (λ t. has discrete x (keys t)) (h refl) in
        ground arith
    contains-disjunction_update false h v =
        ground (arith, has-toggle_each discrete x (keys other) (keys s) v)

    -- `Update`, `DifferenceUpdate`, `IntersectionUpdate` and `DisjunctionUpdate` leave the members
    -- that `Union`, `Difference`, `Intersection` and `Disjunction` have, the last one for an argument
    -- without duplicates, also when it is the set itself.
    pub updates_lem :
        (same_object : Bool)
        → (same_object ≡ true → other ≡ s)
        → IsValid other
        → (contains discrete x (update discrete other s)
            ≡ contains discrete x (union discrete s other))
          × (contains discrete x (difference_update discrete other s)
              ≡ contains discrete x (difference discrete s other))
          × (contains discrete x (intersection_update discrete other s)
              ≡ contains discrete x (intersection discrete s other))
          × (contains discrete x (disjunction_update discrete same_object other s)
              ≡ contains discrete x (disjunction discrete s other))
    updates_lem same_object h v = (
      contains-update ∙ sym contains-union,
      contains-difference_update ∙ sym contains-difference,
      contains-intersection_update ∙ sym contains-intersection,
      contains-disjunction_update same_object h v ∙ sym contains-disjunction,
    )
