-- ===== src/Buffer/Calls.antt =====
-- Sequences of calls of one buffer against the bounded list that it promises.
use go_data_structures.Base.{
  ℕ, ◌≡◌, refl, ap, ◌∙◌, List, [], ◌∷◌, arith, replicate, slice-zero, length-blit,
}
use go_data_structures.Base.Go.{Go, modify, Outcome, returns}
use go_data_structures.Buffer.Defs.{
  Buffer, capacity, append, consume, consume_right, truncate, consume_and_zero,
  consume_right_and_zero, truncate_and_zero, compact, compact_and_zero, reset, reset_and_zero,
}
use go_data_structures.Buffer.Spec
use go_data_structures.Buffer.Spec.{
  Call, appends, fills, grows_zeroed, grows_negative, consumes, consumes_right, truncates,
  consumes_zeroed, consumes_right_zeroed, truncates_zeroed, compacts, compacts_zeroed, resets,
  resets_zeroed, InRange, AllInRange,
}
use go_data_structures.Buffer.Inv.{IsValid, contents, Refines}
use go_data_structures.Buffer.Removals.{
  consume-Refines, consume_right-Refines, truncate-Refines, consume_and_zero-Refines,
  consume_right_and_zero-Refines, truncate_and_zero-Refines,
}
use go_data_structures.Buffer.Clear
use go_data_structures.Buffer.Compact
use go_data_structures.Buffer.CompactZero
use go_data_structures.Buffer.Append.{append-Refines}
use go_data_structures.Buffer.Growth.{
  fill, grow_unused, grow_zeros, fill-Refines, grow_unused-Refines, grow_zeros-Refines,
}

module _ {T : Type 0} (empty : T) where
  unfoldable pub step : Call T → Go (Buffer T) (Unit {0})
  step (appends vs) = append vs
  step (fills vs) = fill empty vs
  step (grows_zeroed n) = grow_zeros empty n
  step (grows_negative n) = grow_unused empty n
  step (consumes n) = consume n
  step (consumes_right n) = consume_right n
  step (truncates n) = truncate n
  step (consumes_zeroed n) = consume_and_zero empty n
  step (consumes_right_zeroed n) = consume_right_and_zero empty n
  step (truncates_zeroed n) = truncate_and_zero empty n
  step compacts = compact
  step compacts_zeroed = compact_and_zero empty
  step resets = modify reset
  step resets_zeroed = reset_and_zero empty

  unfoldable pub run : List (Call T) → Buffer T → List (Outcome (Unit {0})) × Buffer T
  run [] b = ([], b)
  run (c ∷ cs) b = let (o, b') = step c b in let (os, b'') = run cs b' in (o ∷ os, b'')

module _ {T : Type 0} (empty : T) {b : Buffer T} (v : IsValid empty b) where
  reset-Refines : Refines empty b (returns tt, []) (returns tt, reset b)
  unfolding reset contents
  reset-Refines = record {
    valid = unfold reset in Clear.reset-IsValid empty v;
    same_capacity = refl;
    answer = ap (λ xs. (returns tt, xs)) (slice-zero b.store 0);
  }

  reset_and_zero-Refines : Refines empty b (returns tt, []) (reset_and_zero empty b)
  unfolding reset contents
  reset_and_zero-Refines = rw (Clear.reset_and_zero_lem empty v) (record {
    valid = unfold reset in Clear.reset-IsValid empty (Clear.wiped-IsValid empty b.start b.count v);
    same_capacity = length-blit b.store b.start (replicate b.count empty);
    answer = ap (λ xs. (returns tt, xs)) (slice-zero _ 0);
  })

  compact-Refines : Refines empty b (returns tt, contents b) (compact b)
  compact-Refines =
      let c = Compact.after_compact-IsCompacted empty v in
      rw (Compact.compact_result empty v) (record {
        valid = c.valid;
        same_capacity = c.same_capacity;
        answer = ap (λ xs. (returns tt, xs)) c.same_contents;
      })

  compact_and_zero-Refines : Refines empty b (returns tt, contents b) (compact_and_zero empty b)
  compact_and_zero-Refines = rw (CompactZero.compact_and_zero_lem empty v) (record {
    valid = CompactZero.tidied-IsValid empty v;
    same_capacity = CompactZero.length-tidied empty v;
    answer = ap (λ xs. (returns tt, xs)) (CompactZero.contents-tidied empty v);
  })

  step-Refines :
      (c : Call T)
      → InRange (capacity b) c
      → Refines empty b (Spec.step (capacity b) empty c (contents b)) (step empty c b)
  unfolding step Spec.step
  step-Refines (appends vs) h = append-Refines v vs (omega arith)
  step-Refines (fills vs) h = fill-Refines empty v vs (omega arith)
  step-Refines (grows_zeroed n) h = grow_zeros-Refines empty v n (λ k. omega (arith, h.1 k))
  step-Refines (grows_negative n) h = grow_unused-Refines empty v n h.0
  step-Refines (consumes n) h = consume-Refines v n h
  step-Refines (consumes_right n) h = consume_right-Refines v n h
  step-Refines (truncates n) h = truncate-Refines v n h
  step-Refines (consumes_zeroed n) h = consume_and_zero-Refines empty v n h
  step-Refines (consumes_right_zeroed n) h = consume_right_and_zero-Refines empty v n h
  step-Refines (truncates_zeroed n) h = truncate_and_zero-Refines empty v n h
  step-Refines compacts h = compact-Refines
  step-Refines compacts_zeroed h = compact_and_zero-Refines
  step-Refines resets h = reset-Refines
  step-Refines resets_zeroed h = reset_and_zero-Refines

abbrev then_run :
    {T : Type 0} → ℕ → T → List (Call T) → Spec.Reply T → List (Outcome (Unit {0})) × List T
then_run bound empty cs (o, ys) = let (os, zs) = Spec.run bound empty cs ys in (o ∷ os, zs)

-- A sequence of calls on a valid buffer, with any `int`s for counts, negative ones included, and none
-- of which takes the sum of the capacity and what it adds past the largest `int`, answers as the
-- bounded list of its elements does, panics included, leaves the elements that the list holds, and
-- keeps the buffer valid.
pub run_refines :
    {T : Type 0} (empty : T) (cs : List (Call T)) {b : Buffer T}
    → IsValid empty b
    → AllInRange (capacity b) cs
    → let (os, b') = run empty cs b in
      IsValid empty b' × ((os, contents b') ≡ Spec.run (capacity b) empty cs (contents b))
unfolding run Spec.run
run_refines empty [] v h = (v, refl)
run_refines empty (c ∷ cs) {b} v h =
    let r = step-Refines empty v c h.0 in
    let (valid, answers) = run_refines empty cs r.valid (rw r.same_capacity h.1) in
    (
      valid,
      ap (λ p. ((step empty c b).0 ∷ p.0, p.1)) (rw r.same_capacity at answers)
          ∙ ap (then_run (capacity b) empty cs) r.answer,
    )
