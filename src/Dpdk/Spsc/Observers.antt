-- ===== src/Dpdk/Spsc/Observers.antt =====
-- `Count`, `Free`, `Full` and `Empty` between calls.
use go_data_structures.Base.{◌+◌, ◌≡◌, arith, length, ◌==◌, refl}
use go_data_structures.Dpdk.Spsc.Defs.{Queue, count, free, is_full, is_empty}
use go_data_structures.Dpdk.Spsc.Inv.{IsValid, used-le, contents, length-contents, capacity_lem}

module _ {T : Type 0} (zeroed : T) {q : Queue T} (v : IsValid q) where
  -- Between calls of a valid queue `Count` is the number of the items held, `Free` the rest of the
  -- slots, and `Full` and `Empty` compare that number with the number of slots and with 0.
  pub observers_lem :
      (count q ≡ length (contents zeroed q))
      × (free q + length (contents zeroed q) ≡ q.mask + 1)
      × (is_full q ≡ (length (contents zeroed q) == q.mask + 1))
      × (is_empty q ≡ (length (contents zeroed q) == 0))
  unfolding free is_full is_empty
  observers_lem =
      let same : count q ≡ length (contents zeroed q) = count_lem in
      rw (same, capacity_lem v)
        (refl, omega (arith, length-contents zeroed q, used-le v), refl, refl)
    where
      count_lem : count q ≡ length (contents zeroed q)
      count_lem = unfold count in omega (arith, length-contents zeroed q, used-le v, capacity_lem v)
