-- ===== src/Dpdk/Capacity.antt =====
-- A ring's capacity is a power of two that divides 2 ^ 32, so a wrapping position and the one that
-- does not wrap have one index.
use Prim.Native.Nat.{bit_and}
use go_data_structures.Base.{
  ℕ, zero, suc, ◌+◌, ◌-◌, ◌%◌, ◌^◌, ◌≤◌, ◌<◌, ◌∣◌, ◌≡◌, arith, lt_or_le, inl, inr,
}
use go_data_structures.Base.Bits.{bit_and_mask, pow_pos}
use native.Mathlib.Nat.{pow-suc, dvd_refl, dvd_trans, dvd-mul_right, mod-mod_of_dvd}

pub record IsCapacity (bound : ℕ) : Type 0 where
  pub exponent : ℕ
  pub bounded : exponent ≤ 30
  pub power : bound ≡ 2 ^ exponent

pow-dvd-pow : (k d : ℕ) → 2 ^ k ∣ 2 ^ (k + d)
pow-dvd-pow k zero = let e : k + 0 ≡ k = omega arith in rw e (dvd_refl (2 ^ k))
pow-dvd-pow k (suc d) =
    let e : k + suc d ≡ suc (k + d) = omega arith in
    rw (e, pow-suc 2 (k + d)) (dvd_trans (2 ^ k) (pow-dvd-pow k d) (dvd-mul_right (2 ^ (k + d)) 2))

pow_mono : (k d : ℕ) → 2 ^ k ≤ 2 ^ (k + d)
pow_mono k zero = let e : k + 0 ≡ k = omega arith in rw e (omega arith)
pow_mono k (suc d) =
    let e : k + suc d ≡ suc (k + d) = omega arith in
    rw (e, pow-suc 2 (k + d)) (omega (arith, pow_mono k d))

module _ {bound : ℕ} (c : IsCapacity bound) where
  pub divides_u32 : bound ∣ 2 ^ 32
  divides_u32 =
      let e : c.exponent + (32 - c.exponent) ≡ 32 = omega (arith, c.bounded) in
      rw c.power (rw e at (pow-dvd-pow c.exponent (32 - c.exponent)))

  pub capacity_bounds : (0 < bound) × (bound ≤ 2 ^ 30)
  capacity_bounds =
      let e : c.exponent + (30 - c.exponent) ≡ 30 = omega (arith, c.bounded) in
      let high : 2 ^ c.exponent ≤ 2 ^ 30 = rw e at (pow_mono c.exponent (30 - c.exponent)) in
      (omega (arith, pow_pos c.exponent, c.power), omega (arith, high, c.power))

  -- `cursor & mask`
  pub index_lem : (x : ℕ) → bit_and x (bound - 1) ≡ x % bound
  index_lem x = rw c.power (bit_and_mask x c.exponent)

  -- The index does not see the wrap of the position.
  pub wrap_index : (x : ℕ) → x % 2 ^ 32 % bound ≡ x % bound
  wrap_index x = mod-mod_of_dvd bound x divides_u32

-- A power of two of at most 2 ^ 30 has an exponent of at most 30.
pub exponent_bound : (k : ℕ) → 2 ^ k ≤ 2 ^ 30 → k ≤ 30
exponent_bound k h = elim (lt_or_le k 31) [
  | inl small ↦ omega arith
  | inr large ↦
      let e : 31 + (k - 31) ≡ k = omega arith in
      let high : 2 ^ 31 ≤ 2 ^ k = rw e at (pow_mono 31 (k - 31)) in absurd (omega arith)
]
