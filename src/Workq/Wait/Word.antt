-- ===== src/Workq/Wait/Word.antt =====
-- workq/waitside.go: the state word of one side, with the pollers in bits 0 to 30, the parked callers
-- in bits 32 to 62, and the closed flag in bit 63.
use Prim.Native.Nat.{bit_and, bit_or}
use go_data_structures.Base.{
  ℕ, ◌+◌, ◌-◌, ◌*◌, ◌/◌, ◌%◌, ◌^◌, ◌≤◌, ◌<◌, ◌≡◌, refl, ◌∙◌, arith, Bool, true, false, not, ◌&&◌,
  ltb, ◌==◌, if◌then◌else◌,
}
use go_data_structures.Base.Bits.{bit_and_mask, bit_and_bit, bit_or_low}

abbrev pub one_poller : ℕ
one_poller = 1

abbrev pub one_parked : ℕ
one_parked = 2 ^ 32

abbrev pub closed_flag : ℕ
closed_flag = 2 ^ 63

abbrev pub count_mask : ℕ
count_mask = 2 ^ 31 - 1

-- Sums and differences of `sideWord`s.
abbrev pub add_word : ℕ → ℕ → ℕ
add_word a b = (a + b) % 2 ^ 64

abbrev pub sub_word : ℕ → ℕ → ℕ
sub_word a b = (a + 2 ^ 64 - b) % 2 ^ 64

unfoldable pub pollers : ℕ → ℕ
pollers w = bit_and w count_mask

unfoldable pub parked : ℕ → ℕ
parked w = bit_and (w / 2 ^ 32) count_mask

unfoldable pub closed : ℕ → Bool
closed w = not (bit_and w closed_flag == 0)

unfoldable pub needs_wake : ℕ → Bool
unfolding pollers parked
needs_wake w = pollers w == 0 && ltb 0 (parked w)

-- `word|closedFlag`
unfoldable pub mark_closed : ℕ → ℕ
mark_closed w = bit_or closed_flag w

-- The word of so many pollers and parked callers.
abbrev pub encode : (pollers parked : ℕ) (closed : Bool) → ℕ
encode p q c = p + q * 2 ^ 32 + (if c then 2 ^ 63 else 0)

module _ (p q : ℕ) (c : Bool) (h : p < 2 ^ 31) (l : q < 2 ^ 31) where
  pub pollers-encode : pollers (encode p q c) ≡ p
  unfolding pollers
  pollers-encode = bit_and_mask (encode p q c) 31 ∙ low c
    where
      low : (b : Bool) → encode p q b % 2 ^ 31 ≡ p
      low true = omega arith
      low false = omega arith

  pub parked-encode : parked (encode p q c) ≡ q
  unfolding parked
  parked-encode = bit_and_mask (encode p q c / 2 ^ 32) 31 ∙ high c
    where
      high : (b : Bool) → encode p q b / 2 ^ 32 % 2 ^ 31 ≡ q
      high true = omega arith
      high false = omega arith

  pub closed-encode : closed (encode p q c) ≡ c
  unfolding closed
  closed-encode = rw (bit_and_bit 63 (encode p q c)) (flag c)
    where
      flag : (b : Bool) → not (encode p q b / 2 ^ 63 % 2 * 2 ^ 63 == 0) ≡ b
      flag true = ground arith
      flag false = ground arith

  pub needs_wake-encode : needs_wake (encode p q c) ≡ (p == 0 && ltb 0 q)
  unfolding needs_wake
  needs_wake-encode = rw (pollers-encode, parked-encode) refl

pub mark_closed-encode :
    (p q : ℕ) → p < 2 ^ 31 → q < 2 ^ 31 → mark_closed (encode p q false) ≡ encode p q true
unfolding mark_closed
mark_closed-encode p q h l =
    let one : 1 * 2 ^ 63 ≡ 2 ^ 63 = omega arith in
    rw one at (bit_or_low 63 1 (encode p q false) (omega arith)) ∙ omega arith

-- Sums and differences of words count up and down.
module _ (p q : ℕ) (room : p + q < 2 ^ 31) where
  pub transfer-encode :
      (n : ℕ) (c : Bool)
      → n ≤ q
      → sub_word (add_word (encode p q c) n) (n * one_parked) ≡ encode (p + n) (q - n) c
  transfer-encode n true h = omega arith
  transfer-encode n false h = omega arith

  pub enter-encode : (c : Bool) → add_word (encode p q c) one_poller ≡ encode (p + 1) q c
  enter-encode true = omega arith
  enter-encode false = omega arith

  pub leave-encode : (c : Bool) → 0 < p → sub_word (encode p q c) one_poller ≡ encode (p - 1) q c
  leave-encode true h = omega arith
  leave-encode false h = omega arith

  pub park-encode :
      (c : Bool)
      → 0 < p
      → add_word (sub_word (encode p q c) one_poller) one_parked ≡ encode (p - 1) (q + 1) c
  park-encode true h = omega arith
  park-encode false h = omega arith

  pub unpark-encode : (c : Bool) → 0 < q → sub_word (encode p q c) one_parked ≡ encode p (q - 1) c
  unpark-encode true h = omega arith
  unpark-encode false h = omega arith
