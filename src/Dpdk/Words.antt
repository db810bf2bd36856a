-- ===== src/Dpdk/Words.antt =====
-- ring/dpdk/ring.go: the index words of a relaxed side, and what its operations compute on them.
use Prim.Native.Nat.{bit_or}
use go_data_structures.Base.{
  ℕ, ◌+◌, ◌*◌, ◌/◌, ◌%◌, ◌^◌, ◌<◌, ◌≡◌, refl, arith, Bool, ◌||◌, add_u32, sub_u32, leb, ◌==◌,
  if◌then◌else◌,
}
use go_data_structures.Base.Bits.{bit_or_low}

-- `pack`
unfoldable pub pack : (pos cnt : ℕ) → ℕ
pack pos cnt = bit_or ((pos * 2 ^ 32) % 2 ^ 64) cnt

-- `unpackPos`
unfoldable pub unpack_pos : ℕ → ℕ
unpack_pos w = w / 2 ^ 32

-- `unpackCnt`
unfoldable pub unpack_cnt : ℕ → ℕ
unpack_cnt w = w % 2 ^ 32

-- `nextTail`
unfoldable pub next_tail : (tail head : ℕ) → ℕ
unfolding pack unpack_pos unpack_cnt
next_tail tail head =
    let cnt = add_u32 (unpack_cnt tail) 1 in
    let pos = if cnt == unpack_cnt head then unpack_pos head else unpack_pos tail in pack pos cnt

-- `headWithinDistance`, from the words that it loads.
unfoldable pub head_within_distance : (tail head distance : ℕ) → ℕ × Bool
unfolding unpack_pos
head_within_distance tail head distance =
    (head, leb (sub_u32 (unpack_pos head) (unpack_pos tail)) distance)

-- `int32(tailPos-mirrorPos) <= 0`, for which `raiseMirror` returns.
unfoldable pub is_raised : (mirror_pos tail_pos : ℕ) → Bool
is_raised mirror_pos tail_pos = let d = sub_u32 tail_pos mirror_pos in d == 0 || leb (2 ^ 31) d

module _ (pos cnt : ℕ) (p : pos < 2 ^ 32) (c : cnt < 2 ^ 32) where
  pub pack_lem : pack pos cnt ≡ pos * 2 ^ 32 + cnt
  unfolding pack
  pack_lem =
      let fits : (pos * 2 ^ 32) % 2 ^ 64 ≡ pos * 2 ^ 32 = omega arith in
      rw fits (bit_or_low 32 pos cnt c)

  -- Two 32-bit halves are read from the word that packs them, which fits 64 bits.
  pub unpack-pack :
      (unpack_pos (pack pos cnt) ≡ pos)
      × (unpack_cnt (pack pos cnt) ≡ cnt)
      × (pack pos cnt < 2 ^ 64)
  unfolding unpack_pos unpack_cnt
  unpack-pack = rw pack_lem (omega arith, omega arith, omega arith)

-- `nextTail` in terms of the halves.
pub next_tail_lem :
    (tail head : ℕ)
    → next_tail tail head
      ≡ pack
          (if add_u32 (unpack_cnt tail) 1 == unpack_cnt head
            then unpack_pos head
            else unpack_pos tail)
          (add_u32 (unpack_cnt tail) 1)
unfolding next_tail
next_tail_lem tail head = refl
