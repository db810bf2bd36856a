-- ===== src/Base/Slices.antt =====
-- What `copy` and a slice expression do to an array of fixed length.
use Prim.Native.Nat.{ℕ, zero, suc, ◌+◌, ◌-◌, ◌≤◌, ◌<◌}
use mathlib.Core.Path.{◌≡◌, refl, sym, ap, ◌∙◌}
use mathlib.Core.List.{List, [], ◌∷◌, ◌++◌}
use native.Mathlib.Nat.{zero-add}
use native.Mathlib.Omega.{arith}
use go_data_structures.Base.Lists.{
  length, get_or, take, drop, replicate, blit, slice, length-take, length-drop, take_split,
  drop-drop, drop-take, take-take, take_all,
}

module _ {ℓ} {A : Type ℓ} where
  pub length-blit : (xs : List A) (i : ℕ) (src : List A) → length (blit xs i src) ≡ length xs
  unfolding blit
  length-blit [] i src = refl
  length-blit (x ∷ xs) zero [] = refl
  length-blit (x ∷ xs) zero (s ∷ src) = ap suc (length-blit xs zero src)
  length-blit (x ∷ xs) (suc i) src = ap suc (length-blit xs i src)

  pub blit-nil : (xs : List A) (i : ℕ) → blit xs i [] ≡ xs
  unfolding blit
  blit-nil [] i = refl
  blit-nil (x ∷ xs) zero = refl
  blit-nil (x ∷ xs) (suc i) = ap (◌∷◌ x) (blit-nil xs i)

  -- What lies past the copy is kept.
  pub get_or-blit_above :
      (xs : List A) (i j : ℕ) (src : List A) (d : A)
      → i + length src ≤ j
      → get_or (blit xs i src) j d ≡ get_or xs j d
  unfolding blit
  get_or-blit_above [] i j src d h = refl
  get_or-blit_above (x ∷ xs) zero j [] d h = refl
  get_or-blit_above (x ∷ xs) zero zero (s ∷ src) d h = absurd (omega arith)
  get_or-blit_above (x ∷ xs) zero (suc j) (s ∷ src) d h =
      get_or-blit_above xs zero j src d (omega arith)
  get_or-blit_above (x ∷ xs) (suc i) zero src d h = absurd (omega arith)
  get_or-blit_above (x ∷ xs) (suc i) (suc j) src d h = get_or-blit_above xs i j src d (omega arith)

  -- Clearing keeps what was clear.
  pub get_or-blit-replicate :
      (xs : List A) (i j n : ℕ) (d : A)
      → get_or xs j d ≡ d
      → get_or (blit xs i (replicate n d)) j d ≡ d
  unfolding blit
  get_or-blit-replicate [] i j n d h = refl
  get_or-blit-replicate (x ∷ xs) zero j zero d h = h
  get_or-blit-replicate (x ∷ xs) zero zero (suc n) d h = refl
  get_or-blit-replicate (x ∷ xs) zero (suc j) (suc n) d h = get_or-blit-replicate xs zero j n d h
  get_or-blit-replicate (x ∷ xs) (suc i) zero n d h = h
  get_or-blit-replicate (x ∷ xs) (suc i) (suc j) n d h = get_or-blit-replicate xs i j n d h

  take-blit-zero :
      (xs src : List A) → length src ≤ length xs → take (length src) (blit xs zero src) ≡ src
  unfolding blit
  take-blit-zero [] [] h = refl
  take-blit-zero [] (s ∷ src) h = absurd (omega arith)
  take-blit-zero (x ∷ xs) [] h = refl
  take-blit-zero (x ∷ xs) (s ∷ src) h = ap (◌∷◌ s) (take-blit-zero xs src (omega arith))

  -- What was copied is there.
  pub slice-blit_self :
      (xs : List A) (i : ℕ) (src : List A)
      → i + length src ≤ length xs
      → slice (blit xs i src) i (length src) ≡ src
  unfolding blit slice
  slice-blit_self [] zero [] h = refl
  slice-blit_self [] zero (s ∷ src) h = absurd (omega arith)
  slice-blit_self [] (suc i) src h = absurd (omega arith)
  slice-blit_self (x ∷ xs) zero src h = take-blit-zero (x ∷ xs) src (omega arith)
  slice-blit_self (x ∷ xs) (suc i) src h = slice-blit_self xs i src (omega arith)

  take-blit_le : (xs : List A) (i n : ℕ) (src : List A) → n ≤ i → take n (blit xs i src) ≡ take n xs
  unfolding blit
  take-blit_le [] i n src h = refl
  take-blit_le (x ∷ xs) i zero src h = refl
  take-blit_le (x ∷ xs) zero (suc n) src h = absurd (omega arith)
  take-blit_le (x ∷ xs) (suc i) (suc n) src h = ap (◌∷◌ x) (take-blit_le xs i n src (omega arith))

  -- What lies before the copy is kept.
  pub slice-blit_below :
      (xs : List A) (i j n : ℕ) (src : List A)
      → j + n ≤ i
      → slice (blit xs i src) j n ≡ slice xs j n
  unfolding blit slice
  slice-blit_below [] i j n src h = refl
  slice-blit_below (x ∷ xs) i zero n src h = take-blit_le (x ∷ xs) i n src (omega arith)
  slice-blit_below (x ∷ xs) zero (suc j) n src h = absurd (omega arith)
  slice-blit_below (x ∷ xs) (suc i) (suc j) n src h = slice-blit_below xs i j n src (omega arith)

  -- What lies past the copy is kept, as a slice.
  pub slice-blit_above :
      (xs : List A) (i j n : ℕ) (src : List A)
      → i + length src ≤ j
      → slice (blit xs i src) j n ≡ slice xs j n
  unfolding blit slice
  slice-blit_above [] i j n src h = refl
  slice-blit_above (x ∷ xs) zero j n [] h = refl
  slice-blit_above (x ∷ xs) zero zero n (s ∷ src) h = absurd (omega arith)
  slice-blit_above (x ∷ xs) zero (suc j) n (s ∷ src) h =
      slice-blit_above xs zero j n src (omega arith)
  slice-blit_above (x ∷ xs) (suc i) zero n src h = absurd (omega arith)
  slice-blit_above (x ∷ xs) (suc i) (suc j) n src h = slice-blit_above xs i j n src (omega arith)

  pub length-slice : (xs : List A) (i n : ℕ) → i + n ≤ length xs → length (slice xs i n) ≡ n
  unfolding slice
  length-slice xs i n h = omega (arith, length-take n (drop i xs), length-drop i xs)

  -- A slice is cut in two.
  pub slice_split :
      (xs : List A) (i n m : ℕ) → slice xs i (n + m) ≡ slice xs i n ++ slice xs (i + n) m
  unfolding slice
  slice_split xs i n m =
      take_split n m (n + m) (drop i xs) refl
      ∙ ap (λ ys. take n (drop i xs) ++ take m ys) (drop-drop i n (i + n) xs refl)

  pub take-slice : (xs : List A) (i k n : ℕ) → k ≤ n → take k (slice xs i n) ≡ slice xs i k
  unfolding slice
  take-slice xs i k n h = take-take k n (drop i xs) h

  pub drop-slice :
      (xs : List A) (i k n : ℕ) → k ≤ n → drop k (slice xs i n) ≡ slice xs (i + k) (n - k)
  unfolding slice
  drop-slice xs i k n h =
      drop-take k (n - k) n (drop i xs) (omega arith)
      ∙ ap (take (n - k)) (drop-drop i k (i + k) xs refl)

  pub slice-append_left :
      (xs ys : List A) (i n : ℕ) → i + n ≤ length xs → slice (xs ++ ys) i n ≡ slice xs i n
  unfolding slice
  slice-append_left xs ys zero zero h = refl
  slice-append_left [] ys zero (suc n) h = absurd (omega arith)
  slice-append_left [] ys (suc i) n h = absurd (omega arith)
  slice-append_left (x ∷ xs) ys zero (suc n) h =
      ap (◌∷◌ x) (slice-append_left xs ys zero n (omega arith))
  slice-append_left (x ∷ xs) ys (suc i) n h = slice-append_left xs ys i n (omega arith)

  pub slice_full : (xs : List A) → slice xs 0 (length xs) ≡ xs
  unfolding slice
  slice_full xs = take_all (length xs) xs (omega arith)

  pub slice-zero : (xs : List A) (i : ℕ) → slice xs i 0 ≡ []
  unfolding slice
  slice-zero xs i = refl

  take_clear :
      (xs : List A) (n : ℕ) (d : A)
      → n ≤ length xs
      → ((k : ℕ) → get_or xs k d ≡ d)
      → take n xs ≡ replicate n d
  take_clear xs zero d h c = refl
  take_clear [] (suc n) d h c = absurd (omega arith)
  take_clear (x ∷ xs) (suc n) d h c =
      ap (λ y. y ∷ take n xs) (c zero)
      ∙ ap (◌∷◌ d) (take_clear xs n d (omega arith) (λ k. c (suc k)))

  -- A region in which every element is `d`.
  pub slice_clear :
      (xs : List A) (i n : ℕ) (d : A)
      → i + n ≤ length xs
      → ((k : ℕ) → i ≤ k → get_or xs k d ≡ d)
      → slice xs i n ≡ replicate n d
  unfolding slice
  slice_clear xs zero n d h c = take_clear xs n d (omega arith) (λ k. c k (omega arith))
  slice_clear [] (suc i) n d h c = absurd (omega arith)
  slice_clear (x ∷ xs) (suc i) n d h c =
      slice_clear xs i n d (omega arith) (λ k p. c (suc k) (omega arith))

  pub get_or-blit_inside :
      (xs : List A) (i j n : ℕ) (d : A)
      → i ≤ j
      → j < i + n
      → get_or (blit xs i (replicate n d)) j d ≡ d
  unfolding blit
  get_or-blit_inside [] i j n d h k = refl
  get_or-blit_inside (x ∷ xs) zero j zero d h k = absurd (omega arith)
  get_or-blit_inside (x ∷ xs) zero zero (suc n) d h k = refl
  get_or-blit_inside (x ∷ xs) zero (suc j) (suc n) d h k =
      get_or-blit_inside xs zero j n d (omega arith) (omega arith)
  get_or-blit_inside (x ∷ xs) (suc i) zero n d h k = absurd (omega arith)
  get_or-blit_inside (x ∷ xs) (suc i) (suc j) n d h k =
      get_or-blit_inside xs i j n d (omega arith) (omega arith)

  -- An array that is clear from `n` on is its first `n` elements and zeros.
  pub eq_of_clear :
      (ys : List A) (n : ℕ) (d : A)
      → n ≤ length ys
      → ((k : ℕ) → n ≤ k → get_or ys k d ≡ d)
      → ys ≡ slice ys 0 n ++ replicate (length ys - n) d
  eq_of_clear ys n d h c =
      sym (slice_full ys)
      ∙ ap (slice ys 0) (omega arith)
      ∙ slice_split ys 0 n (length ys - n)
      ∙ ap (λ zs. slice ys 0 n ++ zs)
          (ap (λ j. slice ys j (length ys - n)) (zero-add n)
            ∙ slice_clear ys n (length ys - n) d (omega arith) c)
