-- ===== src/Buffer/Views.antt =====
-- The slices that a buffer hands out: `Slice`, `AvailableBuffer`, and writes through the latter.
use go_data_structures.Base.{
  ℕ, ◌+◌, ◌-◌, ◌≤◌, ◌≡◌, refl, ◌∙◌, List, arith, length, blit, length-blit, get_or-blit_above,
  slice-blit_below,
}
use go_data_structures.Base.Go.{returns}
use go_data_structures.Buffer.Defs.{
  Buffer, Span, capacity, span, available_buffer, raise_high_water, live, read_span,
}
use go_data_structures.Buffer.Inv.{IsValid, contents}

-- A caller stores `vs` from the `k`-th element of a slice's room on.
unfoldable pub write_room : {T : Type 0} → Span → ℕ → List T → Buffer T → Buffer T
write_room s k vs b = record b { store = blit b.store (s.from + k) vs }

-- The free space behind the live elements, as a slice.
abbrev pub free_span : {T : Type 0} → Buffer T → Span
free_span b = record { from = b.start + b.count; len = 0; room = capacity b - (b.start + b.count) }

-- The buffer with its mark at the capacity.
abbrev pub marked_full : {T : Type 0} → Buffer T → Buffer T
marked_full b = record b { high_water = capacity b }

module _ {T : Type 0} {empty : T} {b : Buffer T} (v : IsValid empty b) where
  -- `Slice` shows exactly the live elements, in a slice whose capacity is its length.
  pub live_lem :
      (live b ≡ (returns (record { from = b.start; len = b.count; room = b.count }), b))
      × (read_span (record { from = b.start; len = b.count; room = b.count }) b ≡ contents b)
  unfolding live span read_span contents
  live_lem = (ground arith, refl)

  available_buffer_lem : available_buffer b ≡ (returns (free_span b), marked_full b)
  unfolding available_buffer span raise_high_water
  available_buffer_lem = ground arith

  -- On a valid buffer `AvailableBuffer` hands out the free space behind the live elements. Whatever
  -- its caller stores there, the buffer stays valid and keeps its elements.
  pub available_buffer_safe :
      (k : ℕ) (vs : List T)
      → k + length vs ≤ capacity b - (b.start + b.count)
      → let b' = write_room (free_span b) k vs (available_buffer b).1 in
        ((available_buffer b).0 ≡ returns (free_span b))
        × IsValid empty b'
        × (contents b' ≡ contents b)
  unfolding write_room contents
  available_buffer_safe k vs h = rw available_buffer_lem (refl, kept, same)
    where
      kept : IsValid empty (write_room (free_span b) k vs (marked_full b))
      kept = record {
        small = omega (arith, length-blit b.store (b.start + b.count + k) vs);
        written = omega arith;
        marked = omega (arith, length-blit b.store (b.start + b.count + k) vs);
        based = v.based;
        clean = λ i p.
            get_or-blit_above b.store (b.start + b.count + k) i vs empty (omega arith)
            ∙ v.clean i (omega arith);
      }

      same : contents (write_room (free_span b) k vs (marked_full b)) ≡ contents b
      same = slice-blit_below b.store (b.start + b.count + k) b.start b.count vs (omega arith)
