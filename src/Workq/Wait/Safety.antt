-- ===== src/Workq/Wait/Safety.antt =====
-- In every reachable state of a side the counts are those of the callers, and no transition panics.
use go_data_structures.Base.{
  ℕ, ◌+◌, ◌^◌, ◌≤◌, ◌<◌, ◌≡◌, refl, sym, ap, ◌∙◌, arith, Bool, true, false, List, ◌∷◌, ◌++◌, length,
  Option, none, some, inl, inr,
}
use go_data_structures.Workq.Wait.Word.{pollers, parked}
use go_data_structures.Workq.Wait.Side.{
  wake_one, leave_polling, enlist, leave_list, take_token, wake_group,
}
use go_data_structures.Workq.Wait.Callers.{
  System, times, Reach, start, registers, enlists, wakes, wakes_group, receives, leaves, gives_up,
  closes,
}
use go_data_structures.Workq.Wait.Counted.{
  registered, Inv, pollers_now, parked_now, wake_one-some, wake_group-some,
}
use go_data_structures.Workq.Wait.Transitions.{
  same_some, register-Inv, leave_polling-some, enlist-some, leave_list-some, take_token-some,
  set_closed-Inv,
}

Reach-Inv : {s : System} → Reach s → Inv s
Reach-Inv start = record {
  is_closed = false;
  word = refl;
  room = omega arith;
  tokens = λ i. refl;
  once = λ i. omega arith;
}
Reach-Inv (registers {s} {side} i r n e) = register-Inv s (Reach-Inv r) i side n e
Reach-Inv (enlists {s} {side} xs i ys at_oldest r p e) =
    elim (enlist-some s (Reach-Inv r) xs i ys p at_oldest) [
      | inl d ↦ absurd (cc (ap (λ x. x.0) (same_some (true, s.side) (false, side) (sym d ∙ e))))
      | inr (side', d, v) ↦
          rw (ap (λ x. x.1) (same_some (false, side') (false, side) (sym d ∙ e))) at v
    ]
Reach-Inv (wakes {s} {side} {sent} r e) =
    let (sent', side', d, v) = wake_one-some s (Reach-Inv r) in
    rw (ap (λ x. x.1) (same_some (sent', side') (sent, side) (sym d ∙ e))) at v
Reach-Inv (wakes_group {s} {side} {sent} target r h e) =
    let (sent', side', d, v) = wake_group-some s (Reach-Inv r) target h in
    rw (ap (λ x. x.1) (same_some (sent', side') (sent, side) (sym d ∙ e))) at v
Reach-Inv (receives {s} {side} xs i ys r p e) =
    let (side', d, v) = take_token-some s (Reach-Inv r) xs i ys p in
    rw (same_some side' side (sym d ∙ e)) at v
Reach-Inv (leaves {s} {side} xs i ys r p e) =
    let (side', d, v) = leave_polling-some s (Reach-Inv r) xs i ys p in
    rw (same_some side' side (sym d ∙ e)) at v
Reach-Inv (gives_up {s} {side} i r h e) =
    let (side', d, v) = leave_list-some s (Reach-Inv r) i h in
    rw (same_some side' side (sym d ∙ e)) at v
Reach-Inv (closes {s} r) = set_closed-Inv s (Reach-Inv r)

-- In every reachable state the word counts the callers that are registered or chosen, and those on
-- the list, a chosen caller has one token and any other none, and no caller is in two places.
pub callers_counted :
    {s : System}
    → Reach s
    → (pollers s.side.word ≡ registered s)
      × (parked s.side.word ≡ length s.side.list)
      × ((i : ℕ) → s.side.tokens i ≡ times i s.chosen)
      × ((i : ℕ) → times i s.polling + times i s.chosen + times i s.side.list ≤ 1)
callers_counted {s} r = let v = Reach-Inv r in (pollers_now s v, parked_now s v, v.tokens, v.once)

-- Not a panic.
abbrev pub IsSome : {A : Type 0} → Option A → Type 0
IsSome none = ⊥
IsSome (some a) = Unit

some-IsSome : {A : Type 0} (o : Option A) (a : A) → o ≡ some a → IsSome o
some-IsSome o a e = rw e tt

-- In every reachable state no transition panics: not a wake of one or of a group within the count's
-- limit, not the parking nor the leaving of a registered caller, not the leaving of a listed one, and
-- a chosen caller has its token to receive.
pub transitions_succeed :
    {s : System}
    → Reach s
    → IsSome (wake_one s.side)
      × ((target : ℕ) → target < 2 ^ 31 → IsSome (wake_group target s.side))
      × ((xs : List ℕ) (i : ℕ) (ys : List ℕ) (at_oldest : Bool)
          → s.polling ≡ xs ++ i ∷ ys
          → IsSome (enlist i at_oldest s.side) × IsSome (leave_polling s.side))
      × ((i : ℕ) → 0 < times i s.side.list → IsSome (leave_list i s.side))
      × ((xs : List ℕ) (i : ℕ) (ys : List ℕ)
          → s.chosen ≡ xs ++ i ∷ ys
          → IsSome (take_token i s.side))
transitions_succeed {s} r =
    let v = Reach-Inv r in
    (
      let (sent, side, e, _) = wake_one-some s v in some-IsSome (wake_one s.side) (sent, side) e,
      λ target h.
          let (sent, side, e, _) = wake_group-some s v target h in
          some-IsSome (wake_group target s.side) (sent, side) e,
      λ xs i ys at_oldest p. (
        elim (enlist-some s v xs i ys p at_oldest) [
          | inl e ↦ some-IsSome (enlist i at_oldest s.side) (true, s.side) e
          | inr (side, e, _) ↦ some-IsSome (enlist i at_oldest s.side) (false, side) e
        ],
        let (side, e, _) = leave_polling-some s v xs i ys p in
            some-IsSome (leave_polling s.side) side e,
      ),
      λ i h. let (side, e, _) = leave_list-some s v i h in some-IsSome (leave_list i s.side) side e,
      λ xs i ys p.
          let (side, e, _) = take_token-some s v xs i ys p in
          some-IsSome (take_token i s.side) side e,
    )
