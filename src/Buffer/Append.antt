-- ===== src/Buffer/Append.antt =====
-- `Append` against the list that it promises.
use go_data_structures.Base.{
  ◌+◌, ◌^◌, ◌≤◌, ◌<◌, ◌≡◌, ◌≢◌, refl, List, [], ◌∷◌, arith, length, inl, inr, lt_or_le, false, ltb,
}
use mathlib.Core.List.{append-nil}
use go_data_structures.Base.Go.{returns, panics, append_exceeds}
use go_data_structures.Buffer.Defs.{Buffer, capacity, append}
use go_data_structures.Buffer.Spec
use go_data_structures.Buffer.Inv.{IsValid, contents, length-contents, Refines}
use go_data_structures.Buffer.Room.{
  extended-Refines, room_for, extended, HasRoom, room_for-HasRoom, make_room_lem, put_behind_lem,
}

module _ {T : Type 0} {empty : T} {b : Buffer T} (v : IsValid empty b) where
  append-nil_lem : append [] b ≡ (returns tt, b)
  unfolding append
  append-nil_lem = refl

  append_fits :
      (vs : List T)
      → b.count + length vs ≤ capacity b
      → length vs ≢ 0
      → append vs b ≡ (returns tt, extended (room_for b (length vs)) vs)
  unfolding append
  append_fits vs h ne =
      ground (arith, make_room_lem empty v (length vs) h, put_behind_lem empty r.valid vs, r.room)
    where
      r : HasRoom empty v (length vs) h (room_for b (length vs))
      r = room_for-HasRoom empty v (length vs) h

  append_exceeds_lem :
      (vs : List T)
      → capacity b < b.count + length vs
      → b.count + length vs < 2 ^ 63
      → append vs b ≡ (panics append_exceeds, b)
  unfolding append
  append_exceeds_lem vs h k = ground arith

  fits_test :
      (vs : List T)
      → b.count + length vs ≤ capacity b
      → ltb (capacity b) (length (contents b) + length vs) ≡ false
  fits_test vs h = ground (arith, length-contents v)

  -- `Append` adds the values at the back, or panics and changes nothing.
  pub append-Refines :
      (vs : List T)
      → b.count + length vs < 2 ^ 63
      → Refines empty b (Spec.append (capacity b) vs (contents b)) (append vs b)
  unfolding Spec.append
  append-Refines [] k =
      rw (append-nil_lem, append-nil)
        (record { valid = v; same_capacity = refl; answer = ground (arith, length-contents v) })
  append-Refines (x ∷ vs) k = elim (lt_or_le (capacity b) (b.count + length (x ∷ vs))) [
    | inl h ↦
        rw (append_exceeds_lem (x ∷ vs) h k)
          (record { valid = v; same_capacity = refl; answer = ground (arith, length-contents v) })
    | inr h ↦
        rw (append_fits (x ∷ vs) h (omega arith), fits_test (x ∷ vs) h)
          (extended-Refines empty (x ∷ vs) (room_for-HasRoom empty v (length (x ∷ vs)) h))
  ]
