-- ===== src/Dpdk/Rts/Finish.antt =====
-- An action of a call keeps the invariant.
use go_data_structures.Base.{
  ℕ, ◌+◌, ◌^◌, ◌≤◌, ◌<◌, ◌≡◌, refl, arith, true, Bool-cases, inl, inr, List, ◌∷◌, ◌++◌, ltb,
  add_u32, ◌==◌,
}
use go_data_structures.Dpdk.Rts.Side.{
  Mark, Side, Pc, working, counting, swapping, raising, measuring, lifting, finished, word,
  next_mark,
}
use go_data_structures.Dpdk.Rts.Tally.{
  open_one, start_of, below_one, tally, tally-append, Every, Every-append, Every-left, Every-right,
  Every-map, Every-map2, none_below,
}
use go_data_structures.Dpdk.Rts.Order.{Knows, Inv, Change, Knows-kept}

module _ (xs : List Pc) (ys : List Pc) where
  -- The calls with one of them taken out.
  tally_at : (f : Pc → ℕ) (p : Pc) → tally f (xs ++ p ∷ ys) ≡ tally f xs + tally f ys + f p
  tally_at f p = omega (arith, tally-append f xs (p ∷ ys))

  -- Its state replaced, when all the others know as before.
  replaced :
      (m m' : Side) (p p' : Pc)
      → Every (Knows m (xs ++ p ∷ ys)) (xs ++ p ∷ ys)
      → Change m (xs ++ p ∷ ys) m' (xs ++ p' ∷ ys)
      → Every (λ q. 0 < open_one q → m'.tail.position ≤ start_of q) xs
      → Every (λ q. 0 < open_one q → m'.tail.position ≤ start_of q) ys
      → Knows m' (xs ++ p' ∷ ys) p'
      → Every (Knows m' (xs ++ p' ∷ ys)) (xs ++ p' ∷ ys)
  replaced m m' p p' k c a b k' =
      let K = Knows m (xs ++ p ∷ ys) in
      let K' = Knows m' (xs ++ p' ∷ ys) in
      let O = λ (q : Pc). (0 < open_one q → m'.tail.position ≤ start_of q) in
      Every-append K' xs (p' ∷ ys)
        (Every-map2 O K K' xs (λ q. Knows-kept c q) a (Every-left K xs (p ∷ ys) k))
        (k', Every-map2 O K K' ys (λ q. Knows-kept c q) b ((Every-right K xs (p ∷ ys) k).1))

-- What a call that has not finished knows of its start.
pub open_Within :
    (m : Side) (calls : List Pc) (p : Pc)
    → Knows m calls p
    → 0 < open_one p
    → m.tail.position ≤ start_of p
open_Within m calls (working s) k h = k.0
open_Within m calls (counting s old) k h = k.0.0
open_Within m calls (swapping s old head) k h = k.0.0
open_Within m calls raising k h = absurd (omega arith)
open_Within m calls (measuring x) k h = absurd (omega arith)
open_Within m calls (lifting x t) k h = absurd (omega arith)
open_Within m calls finished k h = absurd (omega arith)

-- An action that leaves head and tail, and the call's standing.
pub quiet :
    (m : Side) (x : ℕ) (xs : List Pc) (p p' : Pc) (ys : List Pc)
    → Inv m (xs ++ p ∷ ys)
    → m.mirror ≤ x
    → x ≤ m.tail.position
    → open_one p' ≡ open_one p
    → ((b : ℕ) → below_one b p' ≡ below_one b p)
    → Knows (record m { mirror = x }) (xs ++ p' ∷ ys) p'
    → Inv (record m { mirror = x }) (xs ++ p' ∷ ys)
quiet m x xs p p' ys v a b e f k =
    let calls = xs ++ p ∷ ys in
    let all_within =
      Every-map (Knows m calls) (λ q. 0 < open_one q → m.tail.position ≤ start_of q) calls
        (open_Within m calls) v.known in
    let O = λ (q : Pc). (0 < open_one q → m.tail.position ≤ start_of q) in
    record {
      counted = omega (arith, v.counted, tally_at xs ys open_one p, tally_at xs ys open_one p');
      ordered = v.ordered;
      mirrored = b;
      settled = v.settled;
      known =
          replaced xs ys m (record m { mirror = x }) p p' v.known
            (record {
              tail_count = omega arith;
              tail_position = omega arith;
              head_count = omega arith;
              head_position = omega arith;
              mirror = a;
              tail_same = λ d. refl;
              head_same = λ d. refl;
              below_same = λ d y h.
                  omega
                    (arith, tally_at xs ys (below_one y) p, tally_at xs ys (below_one y) p', f y);
            })
            (Every-left O xs (p ∷ ys) all_within) ((Every-right O xs (p ∷ ys) all_within).1) k;
    }

-- The call's own state, and the other calls' starts, in a successful swap of the tail.
module _ (m : Side) (s : ℕ) (old head : Mark) (xs ys : List Pc) where
  abbrev calls : List Pc
  calls = xs ++ swapping s old head ∷ ys

  mine : Inv m calls → Knows m calls (swapping s old head)
  mine v = (Every-right (Knows m calls) xs (swapping s old head ∷ ys) v.known).0

  -- The tail moves on to a position that no other unfinished call is behind.
  moved_on :
      Inv m calls
      → (p' : Pc) (position : ℕ) → open_one p' ≡ 0
      → old.count ≡ m.tail.count
      → m.tail.position ≤ position
      → position ≤ m.head.position
      → (old.count + 1 ≡ m.head.count → position ≡ m.head.position)
      → Every (λ q. 0 < open_one q → position ≤ start_of q) xs
      → Every (λ q. 0 < open_one q → position ≤ start_of q) ys
      → Knows
          (record m { tail = record { position = position; count = old.count + 1 } })
          (xs ++ p' ∷ ys)
          p'
      → Inv
          (record m { tail = record { position = position; count = old.count + 1 } })
          (xs ++ p' ∷ ys)
  moved_on v p' position e same a b f h h' k = record {
    counted = omega (
      arith,
      v.counted,
      tally_at xs ys open_one (swapping s old head),
      tally_at xs ys open_one p',
    );
    ordered = b;
    mirrored = omega (arith, v.mirrored);
    settled = f;
    known =
        replaced xs ys m (record m { tail = record { position = position; count = old.count + 1 } })
          (swapping s old head) p' v.known
          (record {
            tail_count = omega arith;
            tail_position = a;
            head_count = omega arith;
            head_position = omega arith;
            mirror = omega arith;
            tail_same = λ d. absurd (omega arith);
            head_same = λ d. refl;
            below_same = λ d. absurd (omega arith);
          })
          h h' k;
  }

  -- How many others were reserved before the head that was loaded, and have not finished.
  others_below :
      Inv m calls
      → old.count ≡ m.tail.count
      → tally (below_one head.position) xs + tally (below_one head.position) ys + 1 + old.count
        ≡ head.count
  others_below v same =
      let (w, l, e, f, g, i, j) = mine v in
      let t : ltb s head.position ≡ true = ground arith in
      let one : below_one head.position (swapping s old head) ≡ 1 = rw t refl in
      omega (arith, j same, tally_at xs ys (below_one head.position) (swapping s old head), one)

  pub swapped :
      Inv m calls
      → (p' : Pc) → open_one p' ≡ 0
      → ((side : Side) (others : List Pc) → Knows side others p')
      → old.count ≡ m.tail.count
      → head.count < old.count + 2 ^ 32
      → Inv (record m { tail = next_mark old head }) (xs ++ p' ∷ ys)
  swapped v p' e k same fresh =
      let (w, l, before, f, g, i, j) = mine v in
      let others = others_below v same in
      let O = λ (q : Pc). (0 < open_one q → m.tail.position ≤ start_of q) in
      let all_within = Every-map (Knows m calls) O calls (open_Within m calls) v.known in
      elim (Bool-cases (add_u32 (word old.count) 1 == word head.count)) [
        | inl t ↦
            let last : head.count ≡ old.count + 1 = ground arith in
            rw t (
              moved_on v p' head.position e same (omega (arith, w)) f
                (λ d. i (omega (arith, d, last)))
                (none_below head.position xs (omega (arith, others, last)))
                (none_below head.position ys (omega (arith, others, last))) (k _ _))
        | inr t ↦
            let more : old.count + 1 < head.count = ground (arith, others) in
            let here : old.position ≡ m.tail.position = l.1 same in
            rw (t, here)
              (moved_on v p' m.tail.position e same (omega arith) v.ordered
                (λ d. absurd (omega arith)) (Every-left O xs (swapping s old head ∷ ys) all_within)
                ((Every-right O xs (swapping s old head ∷ ys) all_within).1) (k _ _))
      ]
