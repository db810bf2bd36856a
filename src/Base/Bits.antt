-- ===== src/Base/Bits.antt =====
-- `x & (2^k - 1)` is `x % 2^k`: the index masks of the rings.
use Prim.Native.Nat.{
  ℕ, zero, suc, ◌+◌, ◌-◌, ◌*◌, ◌/◌, ◌%◌, ◌^◌, ◌≤◌, ◌<◌, min, max, bit_and, bit_or, digits,
  bit_and-bitwise, bit_or-bitwise,
}
use mathlib.Core.Path.{◌≡◌, refl, sym, ap, ◌∙◌}
use native.Mathlib.Nat.{
  pow-suc, pow-succ', div-div-eq-div-mul, mul_assoc, mod-lt, mod_self, mod-eq_of_lt, div-add-mod,
  add-mul-mod_self_left,
}
use native.Mathlib.Omega.{arith}
use native.Mathlib.Decide.{ℕ_discrete}

-- The law of the lowest digit. `digits` is the loop that the native operation stands for, and any
-- bound on its rounds that covers the number will do.
abbrev and_rounds : ℕ → ℕ → ℕ → ℕ
and_rounds n a b = digits (λ b. zero) min n a b

and_rounds_enough : (n m a b : ℕ) → a ≤ n → a ≤ m → and_rounds n a b ≡ and_rounds m a b
and_rounds_enough zero zero a b p q = refl
and_rounds_enough zero (suc m) zero b p q = refl
and_rounds_enough zero (suc m) (suc a) b p q = absurd (omega arith)
and_rounds_enough (suc n) zero zero b p q = refl
and_rounds_enough (suc n) zero (suc a) b p q = absurd (omega arith)
and_rounds_enough (suc n) (suc m) zero b p q = refl
and_rounds_enough (suc n) (suc m) (suc a) b p q =
    omega (arith, and_rounds_enough n m (suc a / 2) (b / 2) (omega arith) (omega arith))

bit_and_lowest : (a b : ℕ) → bit_and a b ≡ bit_and (a / 2) (b / 2) * 2 + min (a % 2) (b % 2)
bit_and_lowest zero b = omega (arith, bit_and-bitwise 0 b, bit_and-bitwise 0 (b / 2))
bit_and_lowest (suc a) b = omega (
  arith,
  bit_and-bitwise (suc a) b,
  bit_and-bitwise (suc a / 2) (b / 2),
  and_rounds_enough a (suc a / 2) (suc a / 2) (b / 2) (omega arith) (omega arith),
)

bit_and-zero_rounds : (n a : ℕ) → a ≤ n → bit_and a 0 ≡ 0
bit_and-zero_rounds n zero h = refl
bit_and-zero_rounds zero (suc a) h = absurd (omega arith)
bit_and-zero_rounds (suc n) (suc a) h =
    omega (arith, bit_and_lowest (suc a) 0, bit_and-zero_rounds n (suc a / 2) (omega arith))

bit_and-self_rounds : (n a : ℕ) → a ≤ n → bit_and a a ≡ a
bit_and-self_rounds n zero h = refl
bit_and-self_rounds zero (suc a) h = absurd (omega arith)
bit_and-self_rounds (suc n) (suc a) h =
    omega (arith, bit_and_lowest (suc a) (suc a), bit_and-self_rounds n (suc a / 2) (omega arith))

bit_and_self : (a : ℕ) → bit_and a a ≡ a
bit_and_self a = bit_and-self_rounds a a (omega arith)

pub pow_pos : (k : ℕ) → 0 < 2 ^ k
pow_pos zero = omega arith
pow_pos (suc k) = omega (arith, pow-suc 2 k, pow_pos k)

-- The lowest digit of a remainder by a double.
mod_double : (a m : ℕ) → 0 < m → (a / 2) % m * 2 + a % 2 ≡ a % (m * 2)
mod_double a m h = sym (
    ap (λ n. n % (m * 2)) parts
    ∙ add-mul-mod_self_left ((a / 2) % m * 2 + a % 2) (m * 2) (a / 2 / m)
    ∙ mod-eq_of_lt (omega (arith, mod-lt (a / 2) h)))
  where
    parts : a ≡ (a / 2) % m * 2 + a % 2 + m * 2 * (a / 2 / m)
    parts = omega (arith, div-add-mod (a / 2) m)

pub bit_and_mask : (a k : ℕ) → bit_and a (2 ^ k - 1) ≡ a % 2 ^ k
bit_and_mask a zero = omega (arith, bit_and-zero_rounds a a (omega arith))
bit_and_mask a (suc k) = omega (
  arith,
  pow-suc 2 k,
  pow_pos k,
  bit_and_lowest a (2 ^ suc k - 1),
  ap (bit_and (a / 2)) half,
  bit_and_mask (a / 2) k,
  mod_double a (2 ^ k) (pow_pos k),
  ap (λ m. a % m) (pow-suc 2 k),
)
  where
    half : (2 ^ suc k - 1) / 2 ≡ 2 ^ k - 1
    half = omega (arith, pow-suc 2 k, pow_pos k)

-- `x & (x - 1)` is 0 at the powers of two alone.
half_test :
    (x : ℕ) → 2 ≤ x → bit_and x (x - 1) ≡ 0 → (x % 2 ≡ 0) × (bit_and (x / 2) (x / 2 - 1) ≡ 0)
half_test x h e = elim (ℕ_discrete (x % 2) 0) [
  | yes even ↦
      let below : (x - 1) / 2 ≡ x / 2 - 1 = omega arith in
      (even, omega (arith, bit_and_lowest x (x - 1), ap (bit_and (x / 2)) below))
  | no odd ↦
      let same : (x - 1) / 2 ≡ x / 2 = omega arith in
      absurd
        (omega (arith, bit_and_lowest x (x - 1), ap (bit_and (x / 2)) same, bit_and_self (x / 2)))
]

power_of_two_rounds : (n x : ℕ) → x ≤ n → 0 < x → bit_and x (x - 1) ≡ 0 → (k : ℕ) × (x ≡ 2 ^ k)
power_of_two_rounds zero x h p e = absurd (omega arith)
power_of_two_rounds (suc n) x h p e = elim (ℕ_discrete x 1) [
  | yes one ↦ (0, one)
  | no more ↦
      let (even, rest) = half_test x (omega arith) e in
      let (k, half) = power_of_two_rounds n (x / 2) (omega arith) (omega arith) rest in
      (suc k, omega (arith, pow-suc 2 k))
]

pub power_of_two : (x : ℕ) → 0 < x → bit_and x (x - 1) ≡ 0 → (k : ℕ) × (x ≡ 2 ^ k)
power_of_two x = power_of_two_rounds x x (omega arith)

-- The converse.
pub bit_and-power : (k : ℕ) → bit_and (2 ^ k) (2 ^ k - 1) ≡ 0
bit_and-power k = bit_and_mask (2 ^ k) k ∙ mod_self (2 ^ k)

-- The same for the or: of two numbers without a common digit it is the sum.
abbrev or_rounds : ℕ → ℕ → ℕ → ℕ
or_rounds n a b = digits (λ b. b) max n a b

or_rounds_enough : (n m a b : ℕ) → a ≤ n → a ≤ m → or_rounds n a b ≡ or_rounds m a b
or_rounds_enough zero zero a b p q = refl
or_rounds_enough zero (suc m) zero b p q = refl
or_rounds_enough zero (suc m) (suc a) b p q = absurd (omega arith)
or_rounds_enough (suc n) zero zero b p q = refl
or_rounds_enough (suc n) zero (suc a) b p q = absurd (omega arith)
or_rounds_enough (suc n) (suc m) zero b p q = refl
or_rounds_enough (suc n) (suc m) (suc a) b p q =
    omega (arith, or_rounds_enough n m (suc a / 2) (b / 2) (omega arith) (omega arith))

bit_or_lowest : (a b : ℕ) → bit_or a b ≡ bit_or (a / 2) (b / 2) * 2 + max (a % 2) (b % 2)
bit_or_lowest zero b = omega (arith, bit_or-bitwise 0 b, bit_or-bitwise 0 (b / 2))
bit_or_lowest (suc a) b = omega (
  arith,
  bit_or-bitwise (suc a) b,
  bit_or-bitwise (suc a / 2) (b / 2),
  or_rounds_enough a (suc a / 2) (suc a / 2) (b / 2) (omega arith) (omega arith),
)

bit_or-zero_rounds : (n a : ℕ) → a ≤ n → bit_or a 0 ≡ a
bit_or-zero_rounds n zero h = refl
bit_or-zero_rounds zero (suc a) h = absurd (omega arith)
bit_or-zero_rounds (suc n) (suc a) h =
    omega (arith, bit_or_lowest (suc a) 0, bit_or-zero_rounds n (suc a / 2) (omega arith))

pub bit_or_low : (k a c : ℕ) → c < 2 ^ k → bit_or (a * 2 ^ k) c ≡ a * 2 ^ k + c
bit_or_low zero a c h =
    let none : c ≡ 0 = omega arith in
    let one : a * 2 ^ 0 ≡ a = omega arith in
    rw (one, none) (bit_or-zero_rounds a a (omega arith) ∙ omega arith)
bit_or_low (suc k) a c h =
    let double : a * 2 ^ suc k ≡ a * 2 ^ k * 2 =
      ap (λ x. a * x) (pow-suc 2 k) ∙ sym (mul_assoc a (2 ^ k) 2) in
    let half : a * 2 ^ suc k / 2 ≡ a * 2 ^ k = omega arith in
    omega (
      arith,
      pow-suc 2 k,
      bit_or_lowest (a * 2 ^ suc k) c,
      ap (λ x. bit_or x (c / 2)) half,
      bit_or_low k a (c / 2) (omega (arith, pow-suc 2 k)),
    )

-- The and with one bit.
pub bit_and_bit : (k a : ℕ) → bit_and a (2 ^ k) ≡ a / 2 ^ k % 2 * 2 ^ k
bit_and_bit zero a =
    let one : a / 2 ^ 0 ≡ a = omega arith in omega (arith, bit_and_mask a 1, ap (λ x. x % 2) one)
bit_and_bit (suc k) a =
    let p = pow_pos k in
    let even : 2 ^ suc k % 2 ≡ 0 = omega (arith, pow-suc 2 k) in
    let half : 2 ^ suc k / 2 ≡ 2 ^ k = omega (arith, pow-suc 2 k) in
    let same : a / 2 / 2 ^ k ≡ a / 2 ^ suc k =
      div-div-eq-div-mul a 2 (2 ^ k) ∙ ap (λ x. a / x) (sym (pow-succ' 2 k)) in
    let digit = a / 2 ^ suc k % 2 in
    let doubled : digit * 2 ^ suc k ≡ digit * 2 ^ k * 2 =
      ap (λ x. digit * x) (pow-suc 2 k) ∙ sym (mul_assoc digit (2 ^ k) 2) in
    let rest = rw same at (bit_and_bit k (a / 2)) in
    omega (arith, bit_and_lowest a (2 ^ suc k), ap (bit_and (a / 2)) half, rest, doubled)
