-- ===== src/Dpdk/Window.antt =====
-- An array as a ring: the elements at the positions from `p` on, and the two-part copies that the
-- batch calls make.
use go_data_structures.Base.{
  ℕ, zero, suc, ◌+◌, ◌-◌, ◌%◌, ◌≤◌, ◌<◌, ◌≡◌, refl, sym, ap, ap₂, ◌∙◌, List, [], ◌∷◌, ◌++◌, arith,
  length, get_or, lt_or_le, inl, inr, ltb, if◌then◌else◌,
}
use native.Mathlib.Nat.{mod-eq_of_lt, mod-eq-sub-mod, mod-lt, mod-add-mod, add-zero}

-- `(p + k) % cap` for one round at most.
pub mod_shift :
    (bound p k : ℕ)
    → 0 < bound
    → k ≤ bound
    → (p + k) % bound ≡ (if ltb (p % bound + k) bound then p % bound + k else p % bound + k - bound)
mod_shift bound p k h l = elim (lt_or_le (p % bound + k) bound) [
  | inl s ↦ ground (arith, mod-add-mod p bound k, mod-eq_of_lt s)
  | inr s ↦ ground (
    arith,
    mod-add-mod p bound k,
    mod-eq-sub-mod {n = p % bound + k} {m = bound} s,
    mod-eq_of_lt {n = p % bound + k - bound} {m = bound} (omega (arith, mod-lt p h)),
  )
]

module _ {T : Type 0} (empty : T) where
  -- The `n` elements at the positions from `p` on.
  unfoldable pub window : List T → ℕ → ℕ → ℕ → List T
  window xs bound p zero = []
  window xs bound p (suc n) = get_or xs (p % bound) empty ∷ window xs bound (p + 1) n

  pub length-window : (xs : List T) (bound p n : ℕ) → length (window xs bound p n) ≡ n
  unfolding window
  length-window xs bound p zero = refl
  length-window xs bound p (suc n) = ap suc (length-window xs bound (p + 1) n)

  pub window_split :
      (xs : List T) (bound p n m : ℕ)
      → window xs bound p (n + m) ≡ window xs bound p n ++ window xs bound (p + n) m
  unfolding window
  window_split xs bound p zero m =
      let z : 0 + m ≡ m = omega arith in let w : p + 0 ≡ p = omega arith in rw (z, w)
  window_split xs bound p (suc n) m =
      let z : suc n + m ≡ suc (n + m) = omega arith in
      let w : p + suc n ≡ p + 1 + n = omega arith in
      rw (z, w) (ap (◌∷◌ (get_or xs (p % bound) empty)) (window_split xs bound (p + 1) n m))

  -- A window depends on its positions modulo the capacity only.
  pub window_mod :
      (xs : List T) (bound p q n : ℕ)
      → p % bound ≡ q % bound
      → window xs bound p n ≡ window xs bound q n
  unfolding window
  window_mod xs bound p q zero e = refl
  window_mod xs bound p q (suc n) e =
      ap₂ (λ k ys. get_or xs k empty ∷ ys) e
        (window_mod xs bound (p + 1) (q + 1) n
          (sym (mod-add-mod p bound 1) ∙ ap (λ m. (m + 1) % bound) e ∙ mod-add-mod q bound 1))

  -- Two arrays with the same elements at the positions have the same window.
  pub window_congr :
      (xs ys : List T) (bound p n : ℕ)
      → ((k : ℕ) → k < n → get_or xs ((p + k) % bound) empty ≡ get_or ys ((p + k) % bound) empty)
      → window xs bound p n ≡ window ys bound p n
  unfolding window
  window_congr xs ys bound p zero h = refl
  window_congr xs ys bound p (suc n) h =
      ap₂ (λ x zs. x ∷ zs) (rw add-zero at (h 0 (omega arith)))
        (window_congr xs ys bound (p + 1) n
          λ k l. let w : p + 1 + k ≡ p + suc k = omega arith in rw w (h (suc k) (omega arith)))

  -- Values found at the positions from `p` on are the window.
  pub window_eq :
      (xs vs : List T) (bound p : ℕ)
      → ((k : ℕ) → k < length vs → get_or xs ((p + k) % bound) empty ≡ get_or vs k empty)
      → window xs bound p (length vs) ≡ vs
  unfolding window
  window_eq xs [] bound p h = refl
  window_eq xs (v ∷ vs) bound p h =
      ap₂ (λ x zs. x ∷ zs) (rw add-zero at (h 0 (omega arith)))
        (window_eq xs vs bound (p + 1)
          λ k l. let w : p + 1 + k ≡ p + suc k = omega arith in rw w (h (suc k) (omega arith)))

  pub get_or-window :
      (xs : List T) (bound p n k : ℕ)
      → k < n
      → get_or (window xs bound p n) k empty ≡ get_or xs ((p + k) % bound) empty
  unfolding window
  get_or-window xs bound p zero k h = absurd (omega arith)
  get_or-window xs bound p (suc n) zero h = rw add-zero
  get_or-window xs bound p (suc n) (suc k) h =
      let w : p + suc k ≡ p + 1 + k = omega arith in
      rw w (get_or-window xs bound (p + 1) n k (omega arith))
