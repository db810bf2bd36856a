-- ===== src/Dpdk/Rts/Safety.antt =====
-- Whatever order the calls of a relaxed side finish in, it publishes what has been finished.
use go_data_structures.Base.{
  ℕ, ◌+◌, ◌^◌, ◌≤◌, ◌<◌, ◌≡◌, refl, sym, ap, ◌∙◌, arith, true, Bool-cases, inl, inr, List, [], ◌∷◌,
  ◌++◌, add_u32, ◌==◌,
}
use go_data_structures.Dpdk.Words.{
  pack, unpack_pos, unpack_cnt, unpack-pack, next_tail, next_tail_lem, is_raised,
}
use go_data_structures.Dpdk.Rts.Side.{
  Mark, Side, Pc, working, counting, swapping, raising, measuring, lifting, finished, word,
  mark_word, next_mark, moved, advance, reserve, IsFresh, Reach, start, reserves, acts,
}
use go_data_structures.Dpdk.Rts.Tally.{
  open_one, start_of, below_one, tally, tally-append, Every, Every-append, Every-right, Every-map,
  all_below,
}
use go_data_structures.Dpdk.Rts.Order.{Knows, Inv, Change, Knows-kept}
use go_data_structures.Dpdk.Rts.Finish.{quiet, swapped, open_Within}

-- The word of a mark gives its halves.
unpack-mark_word :
    (x : Mark)
    → (unpack_pos (mark_word x) ≡ word x.position) × (unpack_cnt (mark_word x) ≡ word x.count)
unfolding mark_word
unpack-mark_word x =
    let u = unpack-pack (word x.position) (word x.count) (omega arith) (omega arith) in (u.0, u.1)

mark_word_lem : (x : Mark) → mark_word x ≡ pack (word x.position) (word x.count)
unfolding mark_word
mark_word_lem x = refl

-- What `nextTail` computes on words is the word of the next mark: the count goes up by one, and the
-- position moves to the head's when the counts then agree.
pub next_tail-mark_word :
    (old head : Mark) → next_tail (mark_word old) (mark_word head) ≡ mark_word (next_mark old head)
next_tail-mark_word old head =
    let (p, c) = unpack-mark_word old in
    let (q, d) = unpack-mark_word head in
    let cnt : add_u32 (word old.count) 1 ≡ word (old.count + 1) = omega arith in
    next_tail_lem (mark_word old) (mark_word head)
    ∙ rw (c, d, p, q, mark_word_lem (next_mark old head))
        (elim (Bool-cases (add_u32 (word old.count) 1 == word head.count)) [
          | inl t ↦ rw t (ap (pack (word head.position)) cnt)
          | inr t ↦ rw t (ap (pack (word old.position)) cnt)
        ])

-- A compare-and-swap that succeeds found the tail that was loaded.
same_count :
    (old now : Mark)
    → old.count ≤ now.count
    → now.count < old.count + 2 ^ 32
    → (mark_word now == mark_word old) ≡ true
    → old.count ≡ now.count
same_count old now l f e =
    let w : mark_word now ≡ mark_word old = ground arith in
    let c : word now.count ≡ word old.count =
      sym (unpack-mark_word now).1 ∙ ap unpack_cnt w ∙ (unpack-mark_word old).1 in
    omega arith

-- An unfinished call starts before the head.
open_before :
    (m : Side) (calls : List Pc) (p : Pc)
    → Knows m calls p
    → 0 < open_one p
    → start_of p < m.head.position
open_before m calls (working s) k h = k.1
open_before m calls (counting s old) k h = k.0.1
open_before m calls (swapping s old head) k h = k.0.1
open_before m calls raising k h = absurd (omega arith)
open_before m calls (measuring x) k h = absurd (omega arith)
open_before m calls (lifting x t) k h = absurd (omega arith)
open_before m calls finished k h = absurd (omega arith)

module _ (m : Side) (xs ys : List Pc) where
  here : (p : Pc) → Inv m (xs ++ p ∷ ys) → Knows m (xs ++ p ∷ ys) p
  here p v = (Every-right (Knows m (xs ++ p ∷ ys)) xs (p ∷ ys) v.known).0

  -- Loading the head counts all the unfinished calls.
  loaded_head :
      (s : ℕ) (old : Mark)
      → Inv m (xs ++ counting s old ∷ ys)
      → Inv m (xs ++ swapping s old m.head ∷ ys)
  loaded_head s old v =
      let (w, l) = here (counting s old) v in
      let all = xs ++ counting s old ∷ ys in
      let p' = swapping s old m.head in
      let before =
        Every-map (Knows m all) (λ q. 0 < open_one q → start_of q < m.head.position) all
          (open_before m all) v.known in
      let counts : (f : Pc → ℕ)
          → f p' ≡ f (counting s old)
          → tally f (xs ++ p' ∷ ys) ≡ tally f all =
        λ f e.
          omega (arith, e, tally-append f xs (p' ∷ ys), tally-append f xs (counting s old ∷ ys)) in
      quiet m m.mirror xs (counting s old) p' ys v (omega arith) v.mirrored refl (λ b. refl)
        (
          w,
          l,
          w.1,
          omega arith,
          omega arith,
          λ d. refl,
          λ d. omega (
            arith,
            counts (below_one m.head.position) refl,
            all_below m.head.position all before,
            v.counted,
          ),
        )

  pub advance-Inv :
      (p : Pc)
      → Inv m (xs ++ p ∷ ys)
      → IsFresh m p
      → Inv (advance p m).0 (xs ++ (advance p m).1 ∷ ys)
  unfolding advance
  advance-Inv (working s) v f =
      quiet m m.mirror xs (working s) (counting s m.tail) ys v (omega arith) v.mirrored refl
        (λ b. refl) (here (working s) v, (omega arith, λ e. refl))
  advance-Inv (counting s old) v f = loaded_head s old v
  advance-Inv (swapping s old head) v (f, g) =
      let (w, l, _, _, _, _, _) = here (swapping s old head) v in
      let over : (side : Side) (others : List Pc) → Knows side others finished =
        λ side others. tt in
      let on : (side : Side) (others : List Pc) → Knows side others raising = λ side others. tt in
      elim (Bool-cases (mark_word m.tail == mark_word old)) [
        | inl e ↦
            let same = same_count old m.tail l.0 f e in
            elim (Bool-cases (moved old head)) [
              | inl t ↦ rw (e, t) (swapped m s old head xs ys v raising refl on same g)
              | inr t ↦ rw (e, t) (swapped m s old head xs ys v finished refl over same g)
            ]
        | inr e ↦ rw e (
            quiet m m.mirror xs (swapping s old head) (working s) ys v (omega arith) v.mirrored refl
              (λ b. refl) w)
      ]
  advance-Inv raising v f =
      quiet m m.mirror xs raising (measuring m.mirror) ys v (omega arith) v.mirrored refl
        (λ b. refl) (omega arith)
  advance-Inv (measuring x) v f = elim (Bool-cases (is_raised (word x) (word m.tail.position))) [
    | inl e ↦ rw e (
        quiet m m.mirror xs (measuring x) finished ys v (omega arith) v.mirrored refl (λ b. refl)
          tt)
    | inr e ↦ rw e (
        quiet m m.mirror xs (measuring x) (lifting x m.tail.position) ys v (omega arith) v.mirrored
          refl (λ b. refl)
          (here (measuring x) v, omega (arith, here (measuring x) v, v.mirrored), omega arith))
  ]
  advance-Inv (lifting x t) v f = elim (Bool-cases (word m.mirror == word x)) [
    | inl e ↦
        let (a, b, d) = here (lifting x t) v in
        let same : m.mirror ≡ x = ground arith in
        rw e (quiet m t xs (lifting x t) finished ys v (omega arith) d refl (λ b. refl) tt)
    | inr e ↦ rw e (
        quiet m m.mirror xs (lifting x t) raising ys v (omega arith) v.mirrored refl (λ b. refl) tt)
  ]
  advance-Inv finished v f = v

reserve-Inv :
    (m : Side) (calls : List Pc) (k : ℕ)
    → 0 < k
    → Inv m calls
    → Inv (reserve k m) (calls ++ working m.head.position ∷ [])
reserve-Inv m calls k h v =
    let mine = working m.head.position in
    let calls' = calls ++ mine ∷ [] in
    let m' = reserve k m in
    let above : (x : ℕ) → x ≤ m.head.position → below_one x mine ≡ 0 = λ x l. ground arith in
    let change : Change m calls m' calls' = record {
      tail_count = omega arith;
      tail_position = omega arith;
      head_count = omega arith;
      head_position = omega arith;
      mirror = omega arith;
      tail_same = λ d. refl;
      head_same = λ d. absurd (omega arith);
      below_same = λ d x l. omega (arith, tally-append (below_one x) calls (mine ∷ []), above x l);
    } in
    record {
      counted = omega (arith, v.counted, tally-append open_one calls (mine ∷ []));
      ordered = omega (arith, v.ordered);
      mirrored = v.mirrored;
      settled = λ d. absurd (omega (arith, v.counted));
      known =
          Every-append (Knows m' calls') calls (mine ∷ [])
            (Every-map (Knows m calls) (Knows m' calls') calls
              (λ q known. Knows-kept change q (open_Within m calls q known) known) v.known)
            ((v.ordered, omega arith), tt);
    }

Reach-Inv : {m : Side} {calls : List Pc} → Reach m calls → Inv m calls
Reach-Inv start = record {
  counted = refl;
  ordered = omega arith;
  mirrored = omega arith;
  settled = λ e. refl;
  known = tt;
}
Reach-Inv (reserves {m} {calls} k h r) = reserve-Inv m calls k h (Reach-Inv r)
Reach-Inv (acts {m} xs p ys r f) = advance-Inv m xs ys p (Reach-Inv r) f

-- In every reachable state of a relaxed side, whose calls finish in any order, the position that the
-- other side reads is at most the tail's, no unfinished call has a position before the tail's, and
-- when as many calls have finished as have reserved, the tail is at the head.
pub finished_is_published :
    {m : Side} {calls : List Pc}
    → Reach m calls
    → (m.mirror ≤ m.tail.position)
      × Every (λ p. 0 < open_one p → m.tail.position ≤ start_of p) calls
      × (tally open_one calls ≡ 0 → m.tail.position ≡ m.head.position)
finished_is_published {m} {calls} r =
    let v = Reach-Inv r in
    (
      v.mirrored,
      Every-map (Knows m calls) (λ p. 0 < open_one p → m.tail.position ≤ start_of p) calls
          (open_Within m calls) v.known,
      λ e. v.settled (omega (arith, v.counted)),
    )
