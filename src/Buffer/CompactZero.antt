-- ===== src/Buffer/CompactZero.antt =====
-- `CompactAndZero`: the live elements at the front, and zeros in the rest of the array.
use go_data_structures.Base.{
  ℕ, ◌-◌, ◌≤◌, ◌≡◌, refl, sym, ap, ◌∙◌, ◌++◌, arith, length, get_or, slice, replicate, List,
  length-replicate, length-append, take-append, get_or-append_replicate, lt_or_le, inl, inr,
  length-blit, blit-nil, get_or-blit-replicate, get_or-blit_inside, eq_of_clear, slice-blit_below,
}
use go_data_structures.Base.Go.{returns}
use go_data_structures.Buffer.Defs.{Buffer, capacity, compact_and_zero}
use go_data_structures.Buffer.Inv.{IsValid, contents, length-contents}
use go_data_structures.Buffer.Clear.{clear_lem, wiped}
use go_data_structures.Buffer.Compact.{
  after_compact, move_down_lem, IsCompacted, after_compact-IsCompacted,
}

-- A buffer with the same elements at the front, and zeros behind them.
abbrev pub tidied : {T : Type 0} → T → Buffer T → Buffer T
tidied empty b = record {
  store = contents b ++ replicate (capacity b - b.count) empty;
  start = 0;
  count = b.count;
  high_water = b.count;
}

module _ {T : Type 0} (empty : T) where
  module _ {m : Buffer T} (v : IsValid empty m) (front : m.start ≡ 0) where
    clear_above :
        (k : ℕ)
        → m.count ≤ k
        → get_or (wiped empty m m.count (m.high_water - m.count)) k empty ≡ empty
    clear_above k h = elim (lt_or_le k m.high_water) [
      | inl below ↦
          get_or-blit_inside m.store m.count k (m.high_water - m.count) empty h (omega arith)
      | inr above ↦
          get_or-blit-replicate m.store m.count k (m.high_water - m.count) empty (v.clean k above)
    ]

    store_tidied :
        wiped empty m m.count (m.high_water - m.count)
        ≡ contents m ++ replicate (capacity m - m.count) empty
    unfolding contents
    store_tidied =
        eq_of_clear (wiped empty m m.count (m.high_water - m.count)) m.count empty
          (omega (arith, lengths)) clear_above
        ∙ ap
            (λ n.
              slice (wiped empty m m.count (m.high_water - m.count)) 0 m.count ++ replicate n empty)
            (omega (arith, lengths))
        ∙ ap (λ xs. xs ++ replicate (capacity m - m.count) empty)
            (slice-blit_below m.store m.count 0 m.count (replicate (m.high_water - m.count) empty)
                (omega arith)
              ∙ ap (λ s. slice m.store s m.count) (sym front))
      where
        lengths : length (wiped empty m m.count (m.high_water - m.count)) ≡ capacity m
        lengths = length-blit m.store m.count (replicate (m.high_water - m.count) empty)

  -- On a valid buffer `CompactAndZero` returns, with the live elements at the front, zeros
  -- everywhere else, and the high-water mark at the length.
  pub compact_and_zero_lem :
      {b : Buffer T} → IsValid empty b → compact_and_zero empty b ≡ (returns tt, tidied empty b)
  unfolding compact_and_zero
  compact_and_zero_lem {b} v = ground (
    arith,
    move_down_lem empty v,
    clear_lem empty b.count b.high_water (after_compact b),
    c.same_count,
    c.same_water,
    c.same_capacity,
    c.same_contents,
    store_tidied c.valid c.front,
    blit-nil (after_compact b).store b.count,
  )
    where
      c : IsCompacted empty v (after_compact b)
      c = after_compact-IsCompacted empty v

  module _ {b : Buffer T} (v : IsValid empty b) where
    pub length-tidied : capacity (tidied empty b) ≡ capacity b
    length-tidied = omega (
      arith,
      length-append (contents b) (replicate (capacity b - b.count) empty),
      length-replicate (capacity b - b.count) empty,
      length-contents v,
    )

    pub contents-tidied : contents (tidied empty b) ≡ contents b
    unfolding contents slice
    contents-tidied =
        ap (λ n. slice (tidied empty b).store 0 n) (sym (length-contents v))
        ∙ front (contents b) (replicate (capacity b - b.count) empty)
      where
        front : (xs ys : List T) → slice (xs ++ ys) 0 (length xs) ≡ xs
        front xs ys = take-append xs ys

    pub tidied-IsValid : IsValid empty (tidied empty b)
    tidied-IsValid = record {
      small = omega (arith, length-tidied);
      written = omega arith;
      marked = omega (arith, length-tidied);
      based = λ _. refl;
      clean = λ i h.
          get_or-append_replicate (contents b) (capacity b - b.count) i empty
            (omega (arith, length-contents v));
    }
