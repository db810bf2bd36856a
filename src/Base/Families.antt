-- ===== src/Base/Families.antt =====
-- Families `ℕ → A` indexed by thread, and their update at one index.
use Prim.Native.Nat.{ℕ}
use mathlib.Core.Path.{◌≡◌}
use mathlib.Core.Logic.{◌≢◌}
use mathlib.Core.Bool.{true, false}
use native.Mathlib.Omega.{arith}
use native.Mathlib.Decide.{ℕ_discrete}
use go_data_structures.Base.Tests.{◌==◌, if◌then◌else◌}

abbrev pub update {ℓ} : {A : Type ℓ} → (ℕ → A) → ℕ → A → ℕ → A
update f i a j = if j == i then a else f j

-- What holds of the new value and of all others holds of the updated family.
pub update_all {ℓ κ} :
    {A : Type ℓ} (P : A → Type κ) (f : ℕ → A) (i : ℕ) (a : A)
    → P a
    → ((j : ℕ) → j ≢ i → P (f j))
    → (j : ℕ) → P (update f i a j)
update_all P f i a h k j = elim (ℕ_discrete j i) [
  | yes e ↦ let t : (j == i) ≡ true = ground arith in rw t h
  | no e ↦ let t : (j == i) ≡ false = ground arith in rw t (k j e)
]

-- The same for what holds of any two members.
pub update_pairs {ℓ κ} :
    {A : Type ℓ} (R : A → A → Type κ) (f : ℕ → A) (i : ℕ) (a : A)
    → ((x y : A) → R x y → R y x)
    → ((j : ℕ) → j ≢ i → R a (f j))
    → ((j k : ℕ) → j ≢ k → R (f j) (f k))
    → (j k : ℕ) → j ≢ k
    → R (update f i a j) (update f i a k)
update_pairs R f i a swap new old j k n = elim (ℕ_discrete j i) [
  | yes e ↦
      let t : (j == i) ≡ true = ground arith in
      let u : (k == i) ≡ false = ground arith in rw (t, u) (new k (ground arith))
  | no e ↦
      let t : (j == i) ≡ false = ground arith in
      elim (ℕ_discrete k i) [
        | yes d ↦ let u : (k == i) ≡ true = ground arith in rw (t, u) (swap a (f j) (new j e))
        | no d ↦ let u : (k == i) ≡ false = ground arith in rw (t, u) (old j k n)
      ]
]
