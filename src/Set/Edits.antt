-- ===== src/Set/Edits.antt =====
-- The methods that add and remove members, and the keys of the sets that all methods make.
use go_data_structures.Base.{Bool, true, false, ◌&&◌, ◌||◌, not, List, [], none, ◌≡◌, refl, arith}
use go_data_structures.Set.Maps.{same, has, delete, delete_each, delete_func}
use go_data_structures.Set.Laws.{
  IsUnique, has-insert, has-delete, has-insert_if, has-delete_each, has-delete_func,
  insert-IsUnique, delete-IsUnique, insert_if-IsUnique, delete_each-IsUnique, delete_func-IsUnique,
  toggle_each-IsUnique,
}
use go_data_structures.Set.Defs.{
  Set, keys, new, ensure_entries, smaller_first, contains, add, of, add_all, collect, remove,
  remove_all, remove_func, clone, filter, difference, intersection, union, disjunction, update,
  difference_update, intersection_update, disjunction_update, change,
}
use go_data_structures.Set.Membership.{IsValid, change_lem, delete_each-nil}

module _ {K : Type 0} (discrete : (x y : K) → Dec (x ≡ y)) where
  module _ (x : K) (s : Set K) where
    -- The members after `Add`, `AddAll`, `Remove`, `RemoveAll`, `RemoveFunc`, and those of `Filter`
    -- and of `Clone`.
    pub edits_lem :
        (y : K) (ys : List K) (p : K → Bool)
        → (contains discrete x (add discrete y s) ≡ (same discrete x y || contains discrete x s))
          × (contains discrete x (add_all discrete ys s)
              ≡ (has discrete x ys || contains discrete x s))
          × (contains discrete x (remove discrete y s)
              ≡ (not (same discrete x y) && contains discrete x s))
          × (contains discrete x (remove_all discrete ys s)
              ≡ (not (has discrete x ys) && contains discrete x s))
          × (contains discrete x (remove_func p s) ≡ (not (p x) && contains discrete x s))
          × (contains discrete x (filter discrete p s) ≡ (p x && contains discrete x s))
          × (contains discrete x (clone discrete s) ≡ contains discrete x s)
    unfolding contains add add_all remove remove_all remove_func filter clone ensure_entries new has
        delete delete_func
    edits_lem y ys p = (
      has-insert discrete x y (keys s),
      ground (arith, has-insert_if discrete (λ z. true) x ys (keys s)),
      rw (change_lem discrete (delete discrete y) s refl) (has-delete discrete x y (keys s)),
      rw (change_lem discrete (delete_each discrete ys) s (delete_each-nil discrete ys))
          (has-delete_each discrete x ys (keys s)),
      rw (change_lem discrete (delete_func p) s refl) (has-delete_func discrete p x (keys s)),
      ground (arith, has-insert_if discrete p x (keys s) []),
      ground (arith, has-insert_if discrete (λ z. true) x (keys s) []),
    )

  -- The calls that leave or return a set, by what they make of a set, the sets and the keys that
  -- they are given.
  data Made : Set K → Type 0 where
    made_new : Made new
    made_of : (xs : List K) → Made (of discrete xs)
    made_collect : (xs : List K) → Made (collect discrete xs)
    made_zero : Made (record { entries = none })
    made_add : {s : Set K} → Made s → (x : K) → Made (add discrete x s)
    made_add_all : {s : Set K} → Made s → (xs : List K) → Made (add_all discrete xs s)
    made_remove : {s : Set K} → Made s → (x : K) → Made (remove discrete x s)
    made_remove_all : {s : Set K} → Made s → (xs : List K) → Made (remove_all discrete xs s)
    made_remove_func : {s : Set K} → Made s → (p : K → Bool) → Made (remove_func p s)
    made_clone : {s : Set K} → Made s → Made (clone discrete s)
    made_filter : {s : Set K} → Made s → (p : K → Bool) → Made (filter discrete p s)
    made_difference : {s o : Set K} → Made s → Made o → Made (difference discrete s o)
    made_intersection : {s o : Set K} → Made s → Made o → Made (intersection discrete s o)
    made_union : {s o : Set K} → Made s → Made o → Made (union discrete s o)
    made_disjunction : {s o : Set K} → Made s → Made o → Made (disjunction discrete s o)
    made_update : {s o : Set K} → Made s → Made o → Made (update discrete o s)
    made_difference_update : {s o : Set K} → Made s → Made o → Made (difference_update discrete o s)
    made_intersection_update :
        {s o : Set K} → Made s → Made o → Made (intersection_update discrete o s)
    made_disjunction_update :
        {s o : Set K}
        → Made s
        → Made o
        → (same_object : Bool) → Made (disjunction_update discrete same_object o s)

  changed :
      (f : List K → List K) (s : Set K)
      → f [] ≡ []
      → IsUnique discrete (f (keys s))
      → IsValid discrete (change f s)
  changed f s h u = rw (change_lem discrete f s h) u

  -- No set that the methods make, from a nil map or an empty one on, holds a key twice.
  Made-IsValid : {s : Set K} → Made s → IsValid discrete s
  unfolding new of collect add add_all remove remove_all remove_func clone filter difference
      intersection union disjunction update difference_update intersection_update disjunction_update
      ensure_entries delete delete_func
  Made-IsValid made_new = tt
  Made-IsValid (made_of xs) = insert_if-IsUnique discrete (λ z. true) xs [] tt
  Made-IsValid (made_collect xs) = insert_if-IsUnique discrete (λ z. true) xs [] tt
  Made-IsValid made_zero = tt
  Made-IsValid (made_add {s} m x) = insert-IsUnique discrete x (keys s) (Made-IsValid m)
  Made-IsValid (made_add_all {s} m xs) =
      insert_if-IsUnique discrete (λ z. true) xs (keys s) (Made-IsValid m)
  Made-IsValid (made_remove {s} m x) =
      changed (delete discrete x) s refl (delete-IsUnique discrete x (keys s) (Made-IsValid m))
  Made-IsValid (made_remove_all {s} m xs) =
      changed (delete_each discrete xs) s (delete_each-nil discrete xs)
        (delete_each-IsUnique discrete xs (keys s) (Made-IsValid m))
  Made-IsValid (made_remove_func {s} m p) =
      changed (delete_func p) s refl (delete_func-IsUnique discrete p (keys s) (Made-IsValid m))
  Made-IsValid (made_clone {s} m) = insert_if-IsUnique discrete (λ z. true) (keys s) [] tt
  Made-IsValid (made_filter {s} m p) = insert_if-IsUnique discrete p (keys s) [] tt
  Made-IsValid (made_difference {s} {o} m k) =
      insert_if-IsUnique discrete (λ z. not (contains discrete z o)) (keys s) [] tt
  Made-IsValid (made_intersection {s} {o} m k) =
      let (smaller, larger) = smaller_first s o in
      insert_if-IsUnique discrete (λ z. contains discrete z larger) (keys smaller) [] tt
  Made-IsValid (made_union {s} {o} m k) =
      let (smaller, larger) = smaller_first s o in
      insert_if-IsUnique discrete (λ z. true) (keys smaller) (keys (clone discrete larger))
        (insert_if-IsUnique discrete (λ z. true) (keys larger) [] tt)
  Made-IsValid (made_disjunction {s} {o} m k) =
      let (smaller, larger) = smaller_first s o in
      delete_each-IsUnique discrete (keys (intersection discrete s o)) (keys (union discrete s o)) (
        insert_if-IsUnique discrete (λ z. true) (keys smaller) (keys (clone discrete larger))
          (insert_if-IsUnique discrete (λ z. true) (keys larger) [] tt))
  Made-IsValid (made_update {s} {o} m k) =
      insert_if-IsUnique discrete (λ z. true) (keys o) (keys s) (Made-IsValid m)
  Made-IsValid (made_difference_update {s} {o} m k) =
      changed (delete_each discrete (keys o)) s (delete_each-nil discrete (keys o))
        (delete_each-IsUnique discrete (keys o) (keys s) (Made-IsValid m))
  Made-IsValid (made_intersection_update {s} {o} m k) =
      let (smaller, larger) = smaller_first s o in
      insert_if-IsUnique discrete (λ z. contains discrete z larger) (keys smaller) [] tt
  Made-IsValid (made_disjunction_update m k true) = tt
  Made-IsValid (made_disjunction_update {s} {o} m k false) =
      toggle_each-IsUnique discrete (keys o) (keys s) (Made-IsValid m)
