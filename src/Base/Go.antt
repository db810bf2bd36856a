-- ===== src/Base/Go.antt =====
-- Go code over a state `S` that may panic: the state is kept as it stood at the panic, as a caller
-- that recovers sees it.
use mathlib.Core.Path.{◌≡◌, ap}
use mathlib.Core.Bool.{Bool, true, false}

-- The reasons of the panics: the messages of the buffer package, and the runtime's check of the
-- bounds of a slice expression.
pub data Panic : Type 0 where
  negative_capacity append_exceeds negative_grow grow_exceeds : Panic
  truncate_range consume_range slice_bounds : Panic

pub data Outcome {ℓ} (A : Type ℓ) : Type ℓ where
  returns : A → Outcome A
  panics : Panic → Outcome A

abbrev pub Go {ℓ κ} : Type ℓ → Type κ → Type (ℓ ⊔ κ)
Go S A = S → Outcome A × S

abbrev pub go_on {ℓ κ ι} :
    {S : Type ℓ} {A : Type κ} {B : Type ι} → Outcome A × S → (A → Go S B) → Outcome B × S
go_on (returns a, s) f = f a s
go_on (panics p, s) f = (panics p, s)

infixl 5 ◌>>=◌ ◌>>◌
abbrev pub ◌>>=◌ {ℓ κ ι} : {S : Type ℓ} {A : Type κ} {B : Type ι} → Go S A → (A → Go S B) → Go S B
◌>>=◌ m f s = go_on (m s) f

abbrev pub ◌>>◌ {ℓ ι} : {S : Type ℓ} {B : Type ι} → Go S (Unit {0}) → Go S B → Go S B
◌>>◌ m k s = go_on (m s) (λ _. k)

abbrev pub pure {ℓ κ} : {S : Type ℓ} {A : Type κ} → A → Go S A
pure a s = (returns a, s)

abbrev pub panic {ℓ κ} : {S : Type ℓ} {A : Type κ} → Panic → Go S A
panic p s = (panics p, s)

-- The state as it is.
abbrev pub read {ℓ} : {S : Type ℓ} → Go S S
read s = (returns s, s)

abbrev pub modify {ℓ} : {S : Type ℓ} → (S → S) → Go S (Unit {0})
modify f s = (returns tt, f s)

-- `if test { panic(p) }`
abbrev pub panic_if {ℓ} : {S : Type ℓ} → Bool → Panic → Go S (Unit {0})
panic_if true p s = (panics p, s)
panic_if false p s = (returns tt, s)

abbrev pub when {ℓ} : {S : Type ℓ} → Bool → Go S (Unit {0}) → Go S (Unit {0})
when true m s = m s
when false m s = (returns tt, s)

abbrev value_or {ℓ} : {A : Type ℓ} → A → Outcome A → A
value_or d (returns a) = a
value_or d (panics p) = d

pub returns-injective {ℓ} : {A : Type ℓ} {a b : A} → returns a ≡ returns b → a ≡ b
returns-injective {a} e = ap (value_or a) e
