-- ===== src/Buffer/Compact.antt =====
-- `Compact` and `CompactAndZero`: the live elements move to the front.
use go_data_structures.Base.{
  ◌≡◌, refl, ap, ◌∙◌, arith, slice, take_all, inl, inr, sym, Bool-cases, ◌==◌, if◌then◌else◌, blit,
  length-blit, get_or-blit_above, slice-blit_self,
}
use go_data_structures.Base.Go.{returns}
use go_data_structures.Buffer.Defs.{
  Buffer, span, write_span, read_span, capacity, move_down, compact,
}
use go_data_structures.Buffer.Inv.{IsValid, contents, length-contents}

-- The buffer with its live elements at the front.
abbrev pub moved : {T : Type 0} → Buffer T → Buffer T
moved b = record b { store = blit b.store 0 (contents b) }

abbrev pub compacted : {T : Type 0} → Buffer T → Buffer T
compacted b = record (moved b) { start = 0 }

abbrev pub after_compact : {T : Type 0} → Buffer T → Buffer T
after_compact b = if b.start == 0 then record b { start = 0 } else compacted b

module _ {T : Type 0} (empty : T) {b : Buffer T} (v : IsValid empty b) where
  pub move_down_lem : move_down b ≡ (returns tt, moved b)
  unfolding move_down span write_span read_span contents
  move_down_lem =
      ground (arith, length-contents v, take_all b.count (slice b.store b.start b.count))

  slice-moved : slice (moved b).store 0 b.count ≡ contents b
  slice-moved =
      rw (length-contents v) at
        (slice-blit_self b.store 0 (contents b) (omega (arith, length-contents v)))

  pub contents-compacted : contents (compacted b) ≡ contents b
  unfolding contents
  contents-compacted = unfold contents in slice-moved

  pub compacted-IsValid : IsValid empty (compacted b)
  compacted-IsValid = record {
    small = omega (arith, length-blit b.store 0 (contents b));
    written = omega arith;
    marked = omega (arith, length-blit b.store 0 (contents b));
    based = λ _. refl;
    clean = λ i h.
        get_or-blit_above b.store 0 i (contents b) empty (omega (arith, length-contents v))
        ∙ v.clean i h;
  }

  -- What both compactions leave: the same elements, at the front.
  pub record IsCompacted (c : Buffer T) : Type 0 where
    pub valid : IsValid empty c
    pub front : c.start ≡ 0
    pub same_count : c.count ≡ b.count
    pub same_water : c.high_water ≡ b.high_water
    pub same_capacity : capacity c ≡ capacity b
    pub same_contents : contents c ≡ contents b

  compacted-IsCompacted : IsCompacted (compacted b)
  compacted-IsCompacted = record {
    valid = compacted-IsValid;
    front = refl;
    same_count = refl;
    same_water = refl;
    same_capacity = length-blit b.store 0 (contents b);
    same_contents = contents-compacted;
  }

  self-IsCompacted : b.start ≡ 0 → IsCompacted (record b { start = 0 })
  self-IsCompacted e = record {
    valid = rw (← e) v;
    front = refl;
    same_count = refl;
    same_water = refl;
    same_capacity = refl;
    same_contents = ap (λ s. contents (record b { start = s })) (sym e);
  }

  pub after_compact-IsCompacted : IsCompacted (after_compact b)
  after_compact-IsCompacted = elim (Bool-cases (b.start == 0)) [
    | inl e ↦ rw e (self-IsCompacted (ground arith))
    | inr e ↦ rw e compacted-IsCompacted
  ]

  -- `Compact` keeps the elements and moves them to the front.
  pub compact_result : compact b ≡ (returns tt, after_compact b)
  unfolding compact
  compact_result = ground (arith, move_down_lem)
