-- ===== src/Dpdk/Copies.antt =====
-- The copies of the batch calls: `copy(entries[base:base+first], items[:first])` and
-- `copy(entries[:length-first], items[first:length])`, and the same out of the ring.
use go_data_structures.Base.{
  ℕ, ◌+◌, ◌-◌, ◌%◌, ◌≤◌, ◌<◌, ◌≡◌, refl, sym, ap, ◌∙◌, List, ◌++◌, arith, length, get_or, take,
  drop, slice, blit, length-blit, lt_or_le, inl, inr, min, length-take, length-drop, length-append,
  length-slice, ltb, if◌then◌else◌, get_or-blit_above, get_or-blit_below, get_or-blit_at,
  get_or-take, get_or-drop, get_or-slice, get_or-append_left, get_or-append_right, eq_of_elements,
}
use native.Mathlib.Nat.{mod-lt, add-mod_right}
use go_data_structures.Dpdk.Window.{
  mod_shift, window, length-window, window_congr, window_eq, get_or-window,
}

-- `first`, the part up to the end of the array.
abbrev pub first_part : ℕ → ℕ → ℕ → ℕ
first_part bound base n = min n (bound - base)

unfoldable pub copy_in {ℓ} : {A : Type ℓ} → List A → ℕ → ℕ → List A → List A
copy_in xs bound base vs =
    let first = first_part bound base (length vs) in
    blit (blit xs base (take first vs)) 0 (drop first vs)

unfoldable pub copy_out {ℓ} : {A : Type ℓ} → List A → ℕ → ℕ → ℕ → List A
copy_out xs bound base n =
    let first = first_part bound base n in slice xs base first ++ slice xs 0 (n - first)

-- The index of the `k`-th position of a round that starts at `base`.
abbrev pub round : ℕ → ℕ → ℕ → ℕ
round bound base k = if ltb (base + k) bound then base + k else base + k - bound

module _ {T : Type 0} (empty : T) (xs : List T) (bound base : ℕ) (size : length xs ≡ bound)
    (inside : base < bound) where
  pub length-copy_in : (vs : List T) → length (copy_in xs bound base vs) ≡ bound
  unfolding copy_in
  length-copy_in vs =
      let first = first_part bound base (length vs) in
      length-blit (blit xs base (take first vs)) 0 (drop first vs)
      ∙ length-blit xs base (take first vs)
      ∙ size

  module _ (vs : List T) (fits : length vs ≤ bound) where
    abbrev first : ℕ
    first = first_part bound base (length vs)

    length-front : length (take first vs) ≡ first
    length-front = omega (arith, length-take first vs)

    length-back : length (drop first vs) ≡ length vs - first
    length-back = length-drop first vs

    -- The `k`-th value is at the `k`-th position.
    pub get_or-copy_in_at :
        (k : ℕ)
        → k < length vs
        → get_or (copy_in xs bound base vs) (round bound base k) empty ≡ get_or vs k empty
    unfolding copy_in
    get_or-copy_in_at k h = elim (lt_or_le (base + k) bound) [
      | inl s ↦
          ap (λ j. get_or (copied) j empty) (at_low s)
          ∙ get_or-blit_above (blit xs base (take first vs)) 0 (base + k) (drop first vs) empty
              (omega (arith, length-back))
          ∙ get_or-blit_at xs base (base + k) k (take first vs) empty refl
              (omega (arith, length-front)) (omega arith)
          ∙ get_or-take first k vs empty (omega arith)
      | inr s ↦
          ap (λ j. get_or (copied) j empty) (at_high s)
          ∙ get_or-blit_at (blit xs base (take first vs)) 0 (base + k - bound) (base + k - bound)
              (drop first vs) empty (omega arith) (omega (arith, length-back))
              (omega (arith, length-blit xs base (take first vs)))
          ∙ get_or-drop first (base + k - bound) k vs empty (omega arith)
    ]
      where
        copied : List T
        copied = blit (blit xs base (take first vs)) 0 (drop first vs)

        at_low : base + k < bound → round bound base k ≡ base + k
        at_low s = ground arith

        at_high : bound ≤ base + k → round bound base k ≡ base + k - bound
        at_high s = ground arith

    -- The other positions of the round keep their elements.
    pub get_or-copy_in_past :
        (k : ℕ)
        → length vs ≤ k
        → k < bound
        → get_or (copy_in xs bound base vs) (round bound base k) empty
          ≡ get_or xs (round bound base k) empty
    unfolding copy_in
    get_or-copy_in_past k h l = elim (lt_or_le (base + k) bound) [
      | inl s ↦
          get_or-blit_above (blit xs base (take first vs)) 0 (round bound base k) (drop first vs)
            empty (ground (arith, length-back))
          ∙ get_or-blit_above xs base (round bound base k) (take first vs) empty
              (ground (arith, length-front))
      | inr s ↦
          get_or-blit_above (blit xs base (take first vs)) 0 (round bound base k) (drop first vs)
            empty (ground (arith, length-back))
          ∙ get_or-blit_below xs base (round bound base k) (take first vs) empty (ground arith)
    ]

module _ {T : Type 0} (empty : T) (xs : List T) (bound : ℕ) (size : length xs ≡ bound)
    (some_room : 0 < bound) where
  -- A copy into the ring is read back as it was.
  pub window-copy_in_self :
      (p : ℕ) (vs : List T)
      → length vs ≤ bound
      → window empty (copy_in xs bound (p % bound) vs) bound p (length vs) ≡ vs
  window-copy_in_self p vs h = window_eq empty (copy_in xs bound (p % bound) vs) vs bound p λ k l.
      rw (mod_shift bound p k some_room (omega arith))
        (get_or-copy_in_at empty xs bound (p % bound) size (mod-lt p some_room) vs h k l)

  -- It keeps the window that it follows.
  pub window-copy_in_before :
      (s n : ℕ) (vs : List T)
      → n + length vs ≤ bound
      → window empty (copy_in xs bound ((s + n) % bound) vs) bound s n ≡ window empty xs bound s n
  window-copy_in_before s n vs h =
      window_congr empty (copy_in xs bound ((s + n) % bound) vs) xs bound s n λ k l.
        rw (once_round k l, mod_shift bound (s + n) (bound - n + k) some_room (omega arith))
          (get_or-copy_in_past empty xs bound ((s + n) % bound) size (mod-lt (s + n) some_room) vs
            (omega arith) (bound - n + k) (omega arith) (omega arith))
    where
      once_round : (k : ℕ) → k < n → (s + k) % bound ≡ (s + n + (bound - n + k)) % bound
      once_round k l = sym (add-mod_right (s + k) bound) ∙ ap (λ m. m % bound) (omega arith)

  -- It keeps the window that follows it.
  pub window-copy_in_after :
      (p m : ℕ) (vs : List T)
      → length vs + m ≤ bound
      → window empty (copy_in xs bound (p % bound) vs) bound (p + length vs) m
        ≡ window empty xs bound (p + length vs) m
  window-copy_in_after p m vs h =
      window_congr empty (copy_in xs bound (p % bound) vs) xs bound (p + length vs) m λ k l.
        let w : p + length vs + k ≡ p + (length vs + k) = omega arith in
        rw (w, mod_shift bound p (length vs + k) some_room (omega arith))
          (get_or-copy_in_past empty xs bound (p % bound) size (mod-lt p some_room) vs (omega arith)
            (length vs + k) (omega arith) (omega arith))

  -- The two-part copy out of the ring is the window.
  pub copy_out_lem :
      (p n : ℕ) → n ≤ bound → copy_out xs bound (p % bound) n ≡ window empty xs bound p n
  unfolding copy_out
  copy_out_lem p n h =
      eq_of_elements copied (window empty xs bound p n) empty
        (lengths ∙ sym (length-window empty xs bound p n))
        λ k l.
          element k (omega (arith, lengths))
          ∙ sym (get_or-window empty xs bound p n k (omega (arith, lengths)))
    where
      base : ℕ
      base = p % bound

      part : ℕ
      part = first_part bound (p % bound) n

      copied : List T
      copied = slice xs (p % bound) part ++ slice xs 0 (n - part)

      in_range : p % bound < bound
      in_range = mod-lt p some_room

      front : length (slice xs (p % bound) part) ≡ part
      front = length-slice xs (p % bound) part (omega (arith, in_range))

      lengths : length copied ≡ n
      lengths = omega (
        arith,
        length-append (slice xs (p % bound) part) (slice xs 0 (n - part)),
        front,
        length-slice xs 0 (n - part) (omega (arith, in_range)),
      )

      element : (k : ℕ) → k < n → get_or copied k empty ≡ get_or xs ((p + k) % bound) empty
      element k l = elim (lt_or_le (p % bound + k) bound) [
        | inl low ↦
            get_or-append_left (slice xs base part) (slice xs 0 (n - part)) k empty
              (omega (arith, front))
            ∙ get_or-slice xs base part k ((p + k) % bound) empty (omega arith)
                (ground (arith, mod_shift bound p k))
        | inr high ↦
            get_or-append_right (slice xs base part) (slice xs 0 (n - part)) k (k - part) empty
              (omega (arith, front))
            ∙ get_or-slice xs 0 (n - part) (k - part) ((p + k) % bound) empty (omega arith)
                (ground (arith, mod_shift bound p k))
      ]
