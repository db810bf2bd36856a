-- ===== src/Buffer/Room.antt =====
-- What `Append` and `grow` share: room behind the live elements, and the growth of the live region.
use go_data_structures.Base.{
  ℕ, ◌+◌, ◌-◌, ◌≤◌, ◌≡◌, refl, ap, ap₂, ◌∙◌, List, ◌++◌, arith, length, inl, inr, slice_split,
  take_all, slice-blit_self, slice-blit_below, blit, length-blit, get_or-blit_above, Bool-cases,
  ltb, if◌then◌else◌,
}
use go_data_structures.Buffer.Defs.{
  Buffer, capacity, span, write_span, raise_high_water, compact, make_room, put_behind,
}
use go_data_structures.Buffer.Inv.{IsValid, contents, Refines}
use go_data_structures.Base.Go.{returns}
use go_data_structures.Buffer.Compact.{
  after_compact, compact_result, IsCompacted, after_compact-IsCompacted,
}

-- The buffer after the compaction that `n` more elements ask for.
abbrev pub room_for : {T : Type 0} → Buffer T → ℕ → Buffer T
room_for b n = if ltb (capacity b - (b.start + b.count)) n then after_compact b else b

-- `n` more live elements, the mark raised to their end.
abbrev pub reserved : {T : Type 0} → Buffer T → ℕ → Buffer T
reserved b n = record b {
  count = b.count + n;
  high_water =
      if ltb b.high_water (b.start + b.count + n) then b.start + b.count + n else b.high_water;
}

abbrev pub extended : {T : Type 0} → Buffer T → List T → Buffer T
extended b vs = record (reserved b (length vs)) { store = blit b.store (b.start + b.count) vs }

module _ {T : Type 0} (empty : T) where
  module _ {b : Buffer T} (v : IsValid empty b) (n : ℕ) (fits : b.count + n ≤ capacity b) where
    pub record HasRoom (c : Buffer T) : Type 0 where
      pub valid : IsValid empty c
      pub room : c.start + c.count + n ≤ capacity c
      pub same_count : c.count ≡ b.count
      pub same_capacity : capacity c ≡ capacity b
      pub same_contents : contents c ≡ contents b

    pub room_for-HasRoom : HasRoom (room_for b n)
    room_for-HasRoom = elim (Bool-cases (ltb (capacity b - (b.start + b.count)) n)) [
      | inl e ↦ rw e (record {
        valid = c.valid;
        room = omega (arith, c.front, c.same_count, c.same_capacity);
        same_count = c.same_count;
        same_capacity = c.same_capacity;
        same_contents = c.same_contents;
      })
      | inr e ↦ rw e (record {
        valid = v;
        room = ground arith;
        same_count = refl;
        same_capacity = refl;
        same_contents = refl;
      })
    ]
      where
        c : IsCompacted empty v (after_compact b)
        c = after_compact-IsCompacted empty v

    pub make_room_lem : make_room n compact b ≡ (returns tt, room_for b n)
    unfolding make_room
    make_room_lem = ground (arith, compact_result empty v)

  module _ {m : Buffer T} (v : IsValid empty m) where
    pub put_behind_lem :
        (vs : List T)
        → m.start + m.count + length vs ≤ capacity m
        → put_behind vs m ≡ (returns tt, extended m vs)
    unfolding put_behind span write_span raise_high_water
    put_behind_lem vs h = ground (
      arith,
      take_all (capacity m - (m.start + m.count)) vs,
      length-blit m.store (m.start + m.count) vs,
    )

    pub reserved-IsValid :
        (n : ℕ) → m.start + m.count + n ≤ capacity m → IsValid empty (reserved m n)
    reserved-IsValid n h = record {
      small = v.small;
      written = ground arith;
      marked = ground arith;
      based = ground arith;
      clean = λ i k. v.clean i (ground arith);
    }

    pub extended-IsValid :
        (vs : List T) → m.start + m.count + length vs ≤ capacity m → IsValid empty (extended m vs)
    extended-IsValid vs h = record {
      small = omega (arith, length-blit m.store (m.start + m.count) vs);
      written = ground arith;
      marked = ground (arith, length-blit m.store (m.start + m.count) vs);
      based = ground arith;
      clean = λ i k.
          get_or-blit_above m.store (m.start + m.count) i vs empty (ground arith)
          ∙ v.clean i (ground arith);
    }

    -- The new values stand behind the old ones.
    pub contents-extended :
        (vs : List T)
        → m.start + m.count + length vs ≤ capacity m
        → contents (extended m vs) ≡ contents m ++ vs
    unfolding contents
    contents-extended vs h =
        slice_split (extended m vs).store m.start m.count (length vs)
        ∙ ap₂ ◌++◌ (slice-blit_below m.store (m.start + m.count) m.start m.count vs (omega arith))
            (slice-blit_self m.store (m.start + m.count) vs h)

  -- A buffer with room that takes `vs` holds them behind what `b` holds.
  pub extended-Refines :
      {b m : Buffer T} {v : IsValid empty b} (vs : List T) {fits : b.count + length vs ≤ capacity b}
      → HasRoom v (length vs) fits m
      → Refines empty b (returns tt, contents b ++ vs) (returns tt, extended m vs)
  extended-Refines {m} vs r = record {
    valid = extended-IsValid r.valid vs r.room;
    same_capacity = length-blit m.store (m.start + m.count) vs ∙ r.same_capacity;
    answer =
        ap (λ xs. (returns tt, xs))
          (contents-extended r.valid vs r.room ∙ ap (λ xs. xs ++ vs) r.same_contents);
  }
