-- ===== src/Workq/Wait/Counted.antt =====
-- The invariant of a side: the word counts the callers, and a caller that a wake chose has a token.
use go_data_structures.Base.{
  ℕ, ◌+◌, ◌-◌, ◌*◌, ◌^◌, ◌≤◌, ◌<◌, ◌≡◌, refl, ap, ◌∙◌, arith, Bool, true, false, ◌&&◌, ◌||◌,
  Bool-cases, inl, inr, ◌++◌, length, length-append, length-take, length-drop, take, some, min, ltb,
  leb, ◌==◌,
}
use go_data_structures.Workq.Wait.Word.{
  encode, add_word, sub_word, one_poller, transfer-encode, pollers, parked, closed, needs_wake,
  pollers-encode, parked-encode, closed-encode, needs_wake-encode, one_parked, count_mask,
}
use go_data_structures.Workq.Wait.Side.{Side, send_tokens, wake_one, wake_group}
use go_data_structures.Workq.Wait.Callers.{System, times, choose}
use go_data_structures.Workq.Wait.Results.{times-append, times-take-drop, send_tokens-Sent}

-- How many callers are registered, chosen ones included.
abbrev pub registered : System → ℕ
registered s = length s.polling + length s.chosen

pub record Inv (s : System) : Type 0 where
  pub is_closed : Bool
  pub word : s.side.word ≡ encode (registered s) (length s.side.list) is_closed
  pub room : registered s + length s.side.list < 2 ^ 31
  pub tokens : (i : ℕ) → s.side.tokens i ≡ times i s.chosen
  pub once : (i : ℕ) → times i s.polling + times i s.chosen + times i s.side.list ≤ 1

module _ (s : System) (v : Inv s) where
  pub pollers_now : pollers s.side.word ≡ registered s
  pollers_now = rw v.word (
      pollers-encode (registered s) (length s.side.list) v.is_closed (omega (arith, v.room))
        (omega (arith, v.room)))

  pub parked_now : parked s.side.word ≡ length s.side.list
  parked_now = rw v.word (
      parked-encode (registered s) (length s.side.list) v.is_closed (omega (arith, v.room))
        (omega (arith, v.room)))

  pub closed_now : closed s.side.word ≡ v.is_closed
  closed_now = rw v.word (
      closed-encode (registered s) (length s.side.list) v.is_closed (omega (arith, v.room))
        (omega (arith, v.room)))

  needs_now : needs_wake s.side.word ≡ (registered s == 0 && ltb 0 (length s.side.list))
  needs_now = rw v.word (
      needs_wake-encode (registered s) (length s.side.list) v.is_closed (omega (arith, v.room))
        (omega (arith, v.room)))

  -- A wake of the first `n` callers of the list, whose word is computed already.
  sends :
      (n w : ℕ)
      → n ≤ length s.side.list
      → w ≡ encode (registered s + n) (length s.side.list - n) v.is_closed
      → (side : Side) × (send_tokens n (record s.side { word = w }) ≡ some side)
        × Inv (choose side s)
  sends n w h e =
      let (side, d, (word, list, tokens)) =
        send_tokens-Sent n w s.side.list s.side.tokens h
          (λ i. omega (arith, v.tokens i, v.once i)) in
      let left : length side.list ≡ length s.side.list - n =
        ap length list ∙ length-drop n s.side.list in
      let taken : length s.side.list - length side.list ≡ n = omega arith in
      let many : length (take n s.side.list ++ s.chosen) ≡ n + length s.chosen =
        omega (arith, length-append (take n s.side.list) s.chosen, length-take n s.side.list) in
      (
        side,
        d,
        rw taken (record {
          is_closed = v.is_closed;
          word = omega (arith, word, e, many, left);
          room = omega (arith, v.room, many, left);
          tokens = λ i.
              omega (arith, tokens i, v.tokens i, times-append i (take n s.side.list) s.chosen);
          once = λ i. omega (
            arith,
            v.once i,
            ap (times i) list,
            times-take-drop i n s.side.list,
            times-append i (take n s.side.list) s.chosen,
          );
        }),
      )

  -- A wake that sends nothing chooses nobody.
  chooses_none : Inv (choose s.side s)
  chooses_none =
      let none_taken : length s.side.list - length s.side.list ≡ 0 = omega arith in rw none_taken v

  pub wake_one-some :
      (sent : Bool) × (side : Side) × (wake_one s.side ≡ some (sent, side)) × Inv (choose side s)
  unfolding wake_one
  wake_one-some = elim (Bool-cases (registered s == 0 && ltb 0 (length s.side.list))) [
    | inl t ↦
        let (side, d, w) =
          sends 1 (sub_word (add_word s.side.word one_poller) one_parked) (ground arith) (
            rw v.word (
              transfer-encode (registered s) (length s.side.list) v.room 1 v.is_closed
                (ground arith))) in
        (true, side, rw (needs_now, t, d) refl, w)
    | inr t ↦ (false, s.side, rw (needs_now, t) refl, chooses_none)
  ]

  pub wake_group-some :
      (target : ℕ)
      → target < 2 ^ 31
      → (sent : Bool) × (side : Side) × (wake_group target s.side ≡ some (sent, side))
        × Inv (choose side s)
  unfolding wake_group
  wake_group-some target h =
      let p = registered s in
      let q = length s.side.list in
      let n = min q (target - p) in
      elim (Bool-cases (q == 0 || leb target p)) [
        | inl t ↦ (false, s.side, rw (pollers_now, parked_now, t) refl, chooses_none)
        | inr t ↦
            let small : ltb count_mask target ≡ false = ground arith in
            let fits : ltb (count_mask - p) n ≡ false = ground arith in
            let (side, d, w) =
              sends n (sub_word (add_word s.side.word n) (n * one_parked)) (omega arith)
                (rw v.word (transfer-encode p q v.room n v.is_closed (omega arith))) in
            (true, side, rw (pollers_now, parked_now, t, small, fits, d) refl, w)
      ]
