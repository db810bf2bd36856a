-- ===== src/Set/Laws.antt =====
-- Membership of the keys after each loop, and that no key is there twice.
use go_data_structures.Base.{
  Bool, true, false, ◌&&◌, ◌||◌, not, List, [], ◌∷◌, ◌≡◌, refl, sym, ap, ◌∙◌, arith, if◌then◌else◌,
  Bool-cases, inl, inr,
}
use go_data_structures.Set.Maps.{
  is_yes, same, has, insert, delete, insert_if, delete_each, toggle_each, delete_func,
}

module _ {K : Type 0} (discrete : (x y : K) → Dec (x ≡ y)) where
  same_sound : (x y : K) → same discrete x y ≡ true → x ≡ y
  same_sound x y = go (discrete x y)
    where
      go : (d : Dec (x ≡ y)) → is_yes d ≡ true → x ≡ y
      go (yes e) h = e
      go (no f) h = absurd (ground arith)

  pub same_refl : (x : K) → same discrete x x ≡ true
  same_refl x = go (discrete x x)
    where
      go : (d : Dec (x ≡ x)) → is_yes d ≡ true
      go (yes e) = refl
      go (no f) = absurd (f refl)

  -- Equal keys are members alike.
  pub has-same :
      (x y : K) (ys : List K) → same discrete x y ≡ true → has discrete x ys ≡ has discrete y ys
  has-same x y ys h = ap (λ z. has discrete z ys) (same_sound x y h)

  pub has-insert :
      (x y : K) (ys : List K)
      → has discrete x (insert discrete y ys) ≡ (same discrete x y || has discrete x ys)
  unfolding insert has
  has-insert x y ys = elim (Bool-cases (same discrete x y)) [
    | inl e ↦ ground (arith, has-same x y ys e)
    | inr e ↦ ground arith
  ]

  same_left : (x y z : K) → same discrete x z ≡ true → same discrete y x ≡ same discrete y z
  same_left x y z h = ap (same discrete y) (same_sound x z h)

  same_swap : (x y : K) → same discrete x y ≡ true → same discrete y x ≡ true
  same_swap x y h = ap (λ z. same discrete z x) (sym (same_sound x y h)) ∙ same_refl x

  pub same_symmetric : (x y : K) → same discrete x y ≡ same discrete y x
  same_symmetric x y = elim (Bool-cases (same discrete x y)) [
    | inl e ↦ e ∙ sym (same_swap x y e)
    | inr e ↦ elim (Bool-cases (same discrete y x)) [
      | inl d ↦ same_swap y x d ∙ sym d
      | inr d ↦ e ∙ sym d
    ]
  ]

  pub has-delete :
      (x y : K) (ys : List K)
      → has discrete x (delete discrete y ys) ≡ (not (same discrete x y) && has discrete x ys)
  unfolding delete has
  has-delete x y [] = ground arith
  has-delete x y (z ∷ zs) =
      let rest = has-delete x y zs in
      elim (Bool-cases (same discrete y z)) [
        | inl e ↦
            let alike : same discrete x y ≡ same discrete x z = same_left y x z e in ground arith
        | inr e ↦ elim (Bool-cases (same discrete x z)) [
          | inl d ↦
              let apart : same discrete y x ≡ same discrete y z = same_left x y z d in
              ground (arith, same_symmetric x y)
          | inr d ↦ ground arith
        ]
      ]

  pub has-insert_if :
      (p : K → Bool) (x : K) (xs m : List K)
      → has discrete x (insert_if discrete p xs m)
        ≡ ((has discrete x xs && p x) || has discrete x m)
  unfolding insert_if has
  has-insert_if p x [] m = ground arith
  has-insert_if p x (y ∷ ys) m = elim (Bool-cases (p y)) [
    | inl e ↦ rw e (
        let rest = has-insert_if p x ys (insert discrete y m) in
        let first = has-insert x y m in
        elim (Bool-cases (same discrete x y)) [
          | inl d ↦ let px : p x ≡ p y = ap p (same_sound x y d) in ground arith
          | inr d ↦ ground arith
        ])
    | inr e ↦ rw e (
        let rest = has-insert_if p x ys m in
        elim (Bool-cases (same discrete x y)) [
          | inl d ↦ let px : p x ≡ p y = ap p (same_sound x y d) in ground arith
          | inr d ↦ ground arith
        ])
  ]

  pub has-delete_each :
      (x : K) (xs m : List K)
      → has discrete x (delete_each discrete xs m) ≡ (not (has discrete x xs) && has discrete x m)
  unfolding delete_each has
  has-delete_each x [] m = ground arith
  has-delete_each x (y ∷ ys) m =
      ground (arith, has-delete_each x ys (delete discrete y m), has-delete x y m)

  pub has-delete_func :
      (p : K → Bool) (x : K) (xs : List K)
      → has discrete x (delete_func p xs) ≡ (not (p x) && has discrete x xs)
  unfolding delete_func has
  has-delete_func p x [] = ground arith
  has-delete_func p x (y ∷ ys) =
      let rest = has-delete_func p x ys in
      elim (Bool-cases (same discrete x y)) [
        | inl d ↦ let px : p x ≡ p y = ap p (same_sound x y d) in ground arith
        | inr d ↦ ground arith
      ]

  -- No key is there twice.
  abbrev pub IsUnique : List K → Type 0
  IsUnique [] = Unit
  IsUnique (x ∷ xs) = (has discrete x xs ≡ false) × IsUnique xs

  pub insert-IsUnique : (x : K) (xs : List K) → IsUnique xs → IsUnique (insert discrete x xs)
  unfolding insert
  insert-IsUnique x xs u = elim (Bool-cases (has discrete x xs)) [
    | inl e ↦ rw e u
    | inr e ↦ rw e (e, u)
  ]

  pub delete-IsUnique : (x : K) (xs : List K) → IsUnique xs → IsUnique (delete discrete x xs)
  unfolding delete
  delete-IsUnique x [] u = tt
  delete-IsUnique x (y ∷ ys) (f, u) = elim (Bool-cases (same discrete x y)) [
    | inl e ↦ rw e (delete-IsUnique x ys u)
    | inr e ↦ rw e (
      (let absent : has discrete y (delete discrete x ys) ≡ false =
            ground (arith, has-delete y x ys) in
          absent),
      delete-IsUnique x ys u,
    )
  ]

  pub insert_if-IsUnique :
      (p : K → Bool) (xs m : List K) → IsUnique m → IsUnique (insert_if discrete p xs m)
  unfolding insert_if
  insert_if-IsUnique p [] m u = u
  insert_if-IsUnique p (x ∷ xs) m u = elim (Bool-cases (p x)) [
    | inl e ↦ rw e (insert_if-IsUnique p xs (insert discrete x m) (insert-IsUnique x m u))
    | inr e ↦ rw e (insert_if-IsUnique p xs m u)
  ]

  pub delete_each-IsUnique : (xs m : List K) → IsUnique m → IsUnique (delete_each discrete xs m)
  unfolding delete_each
  delete_each-IsUnique [] m u = u
  delete_each-IsUnique (x ∷ xs) m u =
      delete_each-IsUnique xs (delete discrete x m) (delete-IsUnique x m u)

  pub delete_func-IsUnique :
      (p : K → Bool) (xs : List K) → IsUnique xs → IsUnique (delete_func p xs)
  unfolding delete_func
  delete_func-IsUnique p [] u = tt
  delete_func-IsUnique p (x ∷ xs) (f, u) = elim (Bool-cases (p x)) [
    | inl e ↦ rw e (delete_func-IsUnique p xs u)
    | inr e ↦ rw e (
      (let absent : has discrete x (delete_func p xs) ≡ false =
            ground (arith, has-delete_func p x xs) in
          absent),
      delete_func-IsUnique p xs u,
    )
  ]

  -- Each key is toggled once, since no key is there twice.
  pub has-toggle_each :
      (x : K) (xs m : List K)
      → IsUnique xs
      → has discrete x (toggle_each discrete xs m)
        ≡ (if has discrete x xs then not (has discrete x m) else has discrete x m)
  unfolding toggle_each has
  has-toggle_each x [] m u = refl
  has-toggle_each x (y ∷ ys) m (f, u) = elim (Bool-cases (has discrete y m)) [
    | inl e ↦ rw e (
        let rest = has-toggle_each x ys (delete discrete y m) u in
        let first = has-delete x y m in
        elim (Bool-cases (same discrete x y)) [
          | inl d ↦ ground (arith, has-same x y ys d, has-same x y m d)
          | inr d ↦ ground arith
        ])
    | inr e ↦ rw e (
        let rest = has-toggle_each x ys (insert discrete y m) u in
        let first = has-insert x y m in
        elim (Bool-cases (same discrete x y)) [
          | inl d ↦ ground (arith, has-same x y ys d, has-same x y m d)
          | inr d ↦ ground arith
        ])
  ]

  pub toggle_each-IsUnique : (xs m : List K) → IsUnique m → IsUnique (toggle_each discrete xs m)
  unfolding toggle_each
  toggle_each-IsUnique [] m u = u
  toggle_each-IsUnique (x ∷ xs) m u = elim (Bool-cases (has discrete x m)) [
    | inl e ↦ rw e (toggle_each-IsUnique xs (delete discrete x m) (delete-IsUnique x m u))
    | inr e ↦ rw e (toggle_each-IsUnique xs (x ∷ m) (e, u))
  ]
