-- ===== src/Base/Elements.antt =====
-- Arrays element by element.
use Prim.Native.Nat.{ℕ, zero, suc, ◌+◌, ◌<◌}
use mathlib.Core.Path.{◌≡◌, refl, ap, ap₂, ◌∙◌}
use mathlib.Core.List.{List, [], ◌∷◌, ◌++◌}
use native.Mathlib.Omega.{arith}
use go_data_structures.Base.Lists.{length, get_or, take, drop, blit, slice}

module _ {ℓ} {A : Type ℓ} where
  pub get_or-blit_below :
      (xs : List A) (i j : ℕ) (src : List A) (d : A)
      → j < i
      → get_or (blit xs i src) j d ≡ get_or xs j d
  unfolding blit
  get_or-blit_below [] i j src d h = refl
  get_or-blit_below (x ∷ xs) zero j src d h = absurd (omega arith)
  get_or-blit_below (x ∷ xs) (suc i) zero src d h = refl
  get_or-blit_below (x ∷ xs) (suc i) (suc j) src d h = get_or-blit_below xs i j src d (omega arith)

  -- The `k`-th value copied.
  pub get_or-blit_at :
      (xs : List A) (i j k : ℕ) (src : List A) (d : A)
      → j ≡ i + k
      → k < length src
      → j < length xs
      → get_or (blit xs i src) j d ≡ get_or src k d
  unfolding blit
  get_or-blit_at [] i j k src d e h l = absurd (omega arith)
  get_or-blit_at (x ∷ xs) zero j k [] d e h l = absurd (omega arith)
  get_or-blit_at (x ∷ xs) zero zero zero (s ∷ src) d e h l = refl
  get_or-blit_at (x ∷ xs) zero zero (suc k) (s ∷ src) d e h l = absurd (omega arith)
  get_or-blit_at (x ∷ xs) zero (suc j) zero (s ∷ src) d e h l = absurd (omega arith)
  get_or-blit_at (x ∷ xs) zero (suc j) (suc k) (s ∷ src) d e h l =
      get_or-blit_at xs zero j k src d (omega arith) (omega arith) (omega arith)
  get_or-blit_at (x ∷ xs) (suc i) zero k src d e h l = absurd (omega arith)
  get_or-blit_at (x ∷ xs) (suc i) (suc j) k src d e h l =
      get_or-blit_at xs i j k src d (omega arith) (omega arith) (omega arith)

  pub get_or-take : (n k : ℕ) (xs : List A) (d : A) → k < n → get_or (take n xs) k d ≡ get_or xs k d
  get_or-take zero k xs d h = absurd (omega arith)
  get_or-take (suc n) k [] d h = refl
  get_or-take (suc n) zero (x ∷ xs) d h = refl
  get_or-take (suc n) (suc k) (x ∷ xs) d h = get_or-take n k xs d (omega arith)

  pub get_or-drop :
      (n k j : ℕ) (xs : List A) (d : A) → j ≡ n + k → get_or (drop n xs) k d ≡ get_or xs j d
  get_or-drop zero k j xs d e = ap (λ m. get_or xs m d) (omega arith)
  get_or-drop (suc n) k j [] d e = refl
  get_or-drop (suc n) k zero (x ∷ xs) d e = absurd (omega arith)
  get_or-drop (suc n) k (suc j) (x ∷ xs) d e = get_or-drop n k j xs d (omega arith)

  pub get_or-slice :
      (xs : List A) (i n k j : ℕ) (d : A)
      → k < n
      → j ≡ i + k
      → get_or (slice xs i n) k d ≡ get_or xs j d
  unfolding slice
  get_or-slice xs i n k j d h e = get_or-take n k (drop i xs) d h ∙ get_or-drop i k j xs d e

  pub get_or-append_left :
      (xs ys : List A) (k : ℕ) (d : A) → k < length xs → get_or (xs ++ ys) k d ≡ get_or xs k d
  get_or-append_left [] ys k d h = absurd (omega arith)
  get_or-append_left (x ∷ xs) ys zero d h = refl
  get_or-append_left (x ∷ xs) ys (suc k) d h = get_or-append_left xs ys k d (omega arith)

  pub get_or-append_right :
      (xs ys : List A) (j k : ℕ) (d : A) → j ≡ length xs + k → get_or (xs ++ ys) j d ≡ get_or ys k d
  get_or-append_right [] ys j k d e = ap (λ m. get_or ys m d) (omega arith)
  get_or-append_right (x ∷ xs) ys zero k d e = absurd (omega arith)
  get_or-append_right (x ∷ xs) ys (suc j) k d e = get_or-append_right xs ys j k d (omega arith)

  -- Arrays of one length with the same elements are equal.
  pub eq_of_elements :
      (xs ys : List A) (d : A)
      → length xs ≡ length ys
      → ((k : ℕ) → k < length xs → get_or xs k d ≡ get_or ys k d)
      → xs ≡ ys
  eq_of_elements [] [] d e h = refl
  eq_of_elements [] (y ∷ ys) d e h = absurd (omega arith)
  eq_of_elements (x ∷ xs) [] d e h = absurd (omega arith)
  eq_of_elements (x ∷ xs) (y ∷ ys) d e h =
      ap₂ (λ a zs. a ∷ zs) (h 0 (omega arith))
        (eq_of_elements xs ys d (omega arith) (λ k l. h (suc k) (omega arith)))
