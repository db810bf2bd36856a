-- ===== src/Slices/Unique.antt =====
-- `Unique` keeps the members, each once.
use go_data_structures.Base.{
  false, ◌||◌, List, [], ◌∷◌, ◌++◌, ◌≡◌, refl, sym, ◌∙◌, arith, Bool-cases, inl, inr,
}
use go_data_structures.Set.Maps.{same, has, insert}
use go_data_structures.Set.Laws.{IsUnique, has-insert, has-same, same_symmetric}
use go_data_structures.Slices.Defs.{unique_from, unique}

module _ {K : Type 0} (discrete : (x y : K) → Dec (x ≡ y)) where
  has-append :
      (x : K) (xs ys : List K)
      → has discrete x (xs ++ ys) ≡ (has discrete x xs || has discrete x ys)
  unfolding has
  has-append x [] ys = refl
  has-append x (y ∷ xs) ys = ground (arith, has-append x xs ys)

  append-IsUnique :
      (xs : List K) (y : K)
      → IsUnique discrete xs
      → has discrete y xs ≡ false
      → IsUnique discrete (xs ++ (y ∷ []))
  unfolding has
  append-IsUnique [] y u h = (refl, tt)
  append-IsUnique (x ∷ xs) y (f, u) h =
      let fresh : has discrete y xs ≡ false = ground arith in
      let apart : has discrete x (xs ++ (y ∷ [])) ≡ false =
        ground (arith, has-append x xs (y ∷ []), same_symmetric discrete x y) in
      (apart, append-IsUnique xs y u fresh)

  -- What was seen is what was kept.
  abbrev Agree : List K → List K → Type 0
  Agree seen kept = (x : K) → has discrete x seen ≡ has discrete x kept

  Agree-next :
      (seen kept : List K) (y : K)
      → Agree seen kept
      → Agree (insert discrete y seen) (kept ++ (y ∷ []))
  unfolding has
  Agree-next seen kept y h x =
      ground (arith, has-insert discrete x y seen, has-append x kept (y ∷ []), h x)

  unique_from_lem :
      (x : K) (seen kept xs : List K)
      → Agree seen kept
      → IsUnique discrete kept
      → (has discrete x (unique_from discrete seen kept xs)
          ≡ (has discrete x kept || has discrete x xs))
        × IsUnique discrete (unique_from discrete seen kept xs)
  unfolding unique_from has
  unique_from_lem x seen kept [] h u = (ground arith, u)
  unique_from_lem x seen kept (y ∷ ys) h u = elim (Bool-cases (has discrete y seen)) [
    | inl e ↦
        let (members, once) = unique_from_lem x seen kept ys h u in
        rw e (
          elim (Bool-cases (same discrete x y)) [
            | inl d ↦ ground (arith, h y, has-same discrete x y kept d)
            | inr d ↦ ground arith
          ],
          once,
        )
    | inr e ↦
        let (members, once) =
          unique_from_lem x (insert discrete y seen) (kept ++ (y ∷ [])) ys
            (Agree-next seen kept y h) (append-IsUnique kept y u (sym (h y) ∙ e)) in
        rw e (ground (arith, has-append x kept (y ∷ [])), once)
  ]

  -- `Unique` returns the items of the slice, and no item twice.
  pub unique_lem :
      (xs : List K)
      → ((x : K) → has discrete x (unique discrete xs) ≡ has discrete x xs)
        × IsUnique discrete (unique discrete xs)
  unfolding unique has
  unique_lem xs = ((λ x. (unique_from_lem x [] [] xs (λ y. refl) tt).0), once xs)
    where
      once : (ys : List K) → IsUnique discrete (unique_from discrete [] [] ys)
      once [] = tt
      once (y ∷ ys) = (unique_from_lem y [] [] (y ∷ ys) (λ z. refl) tt).1
