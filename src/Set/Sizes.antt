-- ===== src/Set/Sizes.antt =====
-- Keys that are there once are counted by `length`: a part is no longer than the whole.
use go_data_structures.Base.{
  ◌≤◌, ◌<◌, true, false, List, [], ◌∷◌, ◌≡◌, arith, length, Bool-cases, inl, inr,
}
use go_data_structures.Set.Maps.{same, has, delete}
use go_data_structures.Set.Laws.{IsUnique, has-delete, same_refl, has-same}

module _ {K : Type 0} (discrete : (x y : K) → Dec (x ≡ y)) where
  length-delete_le : (x : K) (ys : List K) → length (delete discrete x ys) ≤ length ys
  unfolding delete
  length-delete_le x [] = omega arith
  length-delete_le x (y ∷ ys) = elim (Bool-cases (same discrete x y)) [
    | inl e ↦ rw e (omega (arith, length-delete_le x ys))
    | inr e ↦ rw e (omega (arith, length-delete_le x ys))
  ]

  -- A key that is there takes its place with it.
  length-delete_lt :
      (x : K) (ys : List K) → has discrete x ys ≡ true → length (delete discrete x ys) < length ys
  unfolding delete has
  length-delete_lt x [] h = absurd (ground arith)
  length-delete_lt x (y ∷ ys) h = elim (Bool-cases (same discrete x y)) [
    | inl e ↦ rw e (omega (arith, length-delete_le x ys))
    | inr e ↦
        let later : has discrete x ys ≡ true = ground arith in
        rw e (omega (arith, length-delete_lt x ys later))
  ]

  -- All keys of the first are keys of the second.
  abbrev pub IsPart : List K → List K → Type 0
  IsPart xs ys = (x : K) → has discrete x xs ≡ true → has discrete x ys ≡ true

  pub length-IsPart : (xs ys : List K) → IsUnique discrete xs → IsPart xs ys → length xs ≤ length ys
  unfolding has
  length-IsPart [] ys u h = omega arith
  length-IsPart (x ∷ xs) ys (f, u) h =
      let here : has discrete x ys ≡ true = h x (ground (arith, same_refl discrete x)) in
      let rest : IsPart xs (delete discrete x ys) = without in
      omega (arith, length-delete_lt x ys here, length-IsPart xs (delete discrete x ys) u rest)
    where
      without : IsPart xs (delete discrete x ys)
      without z k = elim (Bool-cases (same discrete z x)) [
        | inl e ↦ absurd (ground (arith, has-same discrete z x xs e))
        | inr e ↦ ground (arith, has-delete discrete z x ys, h z)
      ]

  -- A part that is as long as the whole is all of it.
  pub IsPart-all :
      (xs ys : List K) → IsUnique discrete xs → IsPart xs ys → length xs ≡ length ys → IsPart ys xs
  IsPart-all xs ys u h e y k = elim (Bool-cases (has discrete y xs)) [
    | inl d ↦ d
    | inr d ↦ absurd (
        omega
          (arith, length-delete_lt y ys k, length-IsPart xs (delete discrete y ys) u (without d)))
  ]
    where
      without : has discrete y xs ≡ false → IsPart xs (delete discrete y ys)
      without d z l = elim (Bool-cases (same discrete z y)) [
        | inl s ↦ absurd (ground (arith, has-same discrete z y xs s))
        | inr s ↦ ground (arith, has-delete discrete z y ys, h z l)
      ]
