-- ===== src/Set/Comparisons.antt =====
-- `Equals`, `IsSubset`, `IsSuperset` and `IsDisjoint` decide what their names say.
use go_data_structures.Base.{
  Bool, true, false, not, List, [], ◌∷◌, ◌≡◌, ◌↔◌, refl, sym, ap, ◌∙◌, arith, length, Bool-cases,
  inl, inr, ltb,
}
use go_data_structures.Set.Maps.{same, has, all_of}
use go_data_structures.Set.Laws.{has-same, same_refl}
use go_data_structures.Set.Sizes.{IsPart, length-IsPart, IsPart-all}
use go_data_structures.Set.Defs.{
  Set, keys, len, smaller_first, contains, contains_all, is_subset, is_superset, equals,
  is_disjoint,
}
use go_data_structures.Set.Membership.{IsValid}

module _ {K : Type 0} (discrete : (x y : K) → Dec (x ≡ y)) where
  all_of-member :
      (p : K → Bool) (xs : List K)
      → all_of p xs ≡ true
      → (x : K) → has discrete x xs ≡ true
      → ((y : K) → same discrete x y ≡ true → p x ≡ p y)
      → p x ≡ true
  unfolding all_of has
  all_of-member p [] h x k e = absurd (ground arith)
  all_of-member p (y ∷ ys) h x k e = elim (Bool-cases (same discrete x y)) [
    | inl d ↦ ground (arith, e y d)
    | inr d ↦
        let rest : all_of p ys ≡ true = ground arith in
        let later : has discrete x ys ≡ true = ground arith in all_of-member p ys rest x later e
  ]

  all_of-true :
      (p : K → Bool) (xs : List K)
      → ((x : K) → has discrete x xs ≡ true → p x ≡ true)
      → all_of p xs ≡ true
  unfolding all_of has
  all_of-true p [] h = refl
  all_of-true p (y ∷ ys) h =
      let first : p y ≡ true = h y (ground (arith, same_refl discrete y)) in
      let rest : all_of p ys ≡ true = all_of-true p ys (λ x k. h x (ground arith)) in
      rw (first, rest) refl

  contains_all-IsPart :
      (xs : List K) (s : Set K) → contains_all discrete xs s ≡ true → IsPart discrete xs (keys s)
  unfolding contains_all contains
  contains_all-IsPart xs s h x k =
      all_of-member (λ y. has discrete y (keys s)) xs h x k (λ y. has-same discrete x y (keys s))

  IsPart-contains_all :
      (xs : List K) (s : Set K) → IsPart discrete xs (keys s) → contains_all discrete xs s ≡ true
  unfolding contains_all contains
  IsPart-contains_all xs s = all_of-true (λ y. has discrete y (keys s)) xs

  is_subset-IsPart :
      (s other : Set K) → is_subset discrete s other ≡ true → IsPart discrete (keys s) (keys other)
  unfolding is_subset len
  is_subset-IsPart s other h = contains_all-IsPart (keys s) other (ground arith)

  IsPart-is_subset :
      (s other : Set K)
      → IsValid discrete s
      → IsPart discrete (keys s) (keys other)
      → is_subset discrete s other ≡ true
  unfolding is_subset len
  IsPart-is_subset s other v h =
      let short : ltb (length (keys other)) (length (keys s)) ≡ false =
        ground (arith, length-IsPart discrete (keys s) (keys other) v h) in
      rw short (IsPart-contains_all (keys s) other h)

  -- For a set without duplicates, `IsSubset`, and `IsSuperset` the other way round, returns true
  -- exactly when all its members are members of the other: the test of the sizes is never wrong.
  pub is_subset_lem :
      (s other : Set K)
      → IsValid discrete s
      → ((is_subset discrete s other ≡ true) ↔ IsPart discrete (keys s) (keys other))
        × (is_superset discrete other s ≡ is_subset discrete s other)
  unfolding is_superset
  is_subset_lem s other v = ((is_subset-IsPart s other, IsPart-is_subset s other v), refl)

  -- The same members.
  abbrev pub IsSame : Set K → Set K → Type 0
  IsSame s other = (x : K) → contains discrete x s ≡ contains discrete x other

  both_parts :
      (s other : Set K)
      → IsPart discrete (keys s) (keys other)
      → IsPart discrete (keys other) (keys s)
      → IsSame s other
  unfolding contains
  both_parts s other h k x = elim (Bool-cases (has discrete x (keys s))) [
    | inl e ↦ e ∙ sym (h x e)
    | inr e ↦ elim (Bool-cases (has discrete x (keys other))) [
      | inl d ↦ k x d ∙ sym d
      | inr d ↦ e ∙ sym d
    ]
  ]

  same-IsPart : (s other : Set K) → IsSame s other → IsPart discrete (keys s) (keys other)
  unfolding contains
  same-IsPart s other h x e = sym (h x) ∙ e

  equals-IsSame :
      (s other : Set K) → IsValid discrete s → equals discrete s other ≡ true → IsSame s other
  unfolding equals len
  equals-IsSame s other v h =
      let size : length (keys s) ≡ length (keys other) = ground arith in
      let subset : is_subset discrete s other ≡ true = ground arith in
      let part = is_subset-IsPart s other subset in
      both_parts s other part (IsPart-all discrete (keys s) (keys other) v part size)

  IsSame-equals :
      (s other : Set K)
      → IsValid discrete s
      → IsValid discrete other
      → IsSame s other
      → equals discrete s other ≡ true
  unfolding equals len
  IsSame-equals s other v w h =
      let there = same-IsPart s other h in
      let back = same-IsPart other s (λ x. sym (h x)) in
      ground (
        arith,
        IsPart-is_subset s other v there,
        length-IsPart discrete (keys s) (keys other) v there,
        length-IsPart discrete (keys other) (keys s) w back,
      )

  -- For two sets without duplicates `Equals` returns true exactly when they have the same members:
  -- equal sizes and one inclusion are enough.
  pub equals_lem :
      (s other : Set K)
      → IsValid discrete s
      → IsValid discrete other
      → (equals discrete s other ≡ true) ↔ IsSame s other
  equals_lem s other v w = (equals-IsSame s other v, IsSame-equals s other v w)

  -- No member of the one is a member of the other.
  abbrev pub IsApart : Set K → Set K → Type 0
  IsApart s other = (x : K) → contains discrete x s ≡ true → contains discrete x other ≡ false

  IsApart-all :
      (s other : Set K)
      → IsApart s other
      → all_of (λ x. not (contains discrete x other)) (keys s) ≡ true
  unfolding contains
  IsApart-all s other h =
      all_of-true (λ x. not (has discrete x (keys other))) (keys s) (λ x k. ap not (h x k))

  all-IsApart :
      (s other : Set K)
      → all_of (λ x. not (contains discrete x other)) (keys s) ≡ true
      → IsApart s other
  unfolding contains
  all-IsApart s other h x k =
      let out : not (has discrete x (keys other)) ≡ true =
        all_of-member (λ y. not (has discrete y (keys other))) (keys s) h x k
          (λ y e. ap not (has-same discrete x y (keys other) e)) in
      ground arith

  IsApart-swap : (s other : Set K) → IsApart s other → IsApart other s
  IsApart-swap s other h x k = elim (Bool-cases (contains discrete x s)) [
    | inl e ↦ absurd (ground (arith, h x e))
    | inr e ↦ e
  ]

  -- `IsDisjoint` returns true exactly when no member of the one set is a member of the other,
  -- whichever of them is the larger.
  pub is_disjoint_lem : (s other : Set K) → (is_disjoint discrete s other ≡ true) ↔ IsApart s other
  unfolding is_disjoint smaller_first
  is_disjoint_lem s other = elim (Bool-cases (ltb (len s) (len other))) [
    | inl e ↦ rw e (all-IsApart s other, IsApart-all s other)
    | inr e ↦ rw e (
      (λ h. IsApart-swap other s (all-IsApart other s h)),
      (λ h. IsApart-all other s (IsApart-swap s other h)),
    )
  ]
