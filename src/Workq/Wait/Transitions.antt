-- ===== src/Workq/Wait/Transitions.antt =====
-- Every transition keeps the invariant, and none panics.
use go_data_structures.Base.{
  ℕ, ◌+◌, ◌-◌, ◌≤◌, ◌<◌, ◌≡◌, refl, sym, ap, ◌∙◌, arith, Bool, true, false, Bool-cases, inl, inr,
  ◌⊎◌, List, [], ◌∷◌, ◌++◌, length, length-append, Option, none, some, ◌==◌, if◌then◌else◌, update,
}
use native.Mathlib.Decide.{ℕ_discrete}
use go_data_structures.Workq.Wait.Word.{
  add_word, sub_word, one_poller, one_parked, enter-encode, leave-encode, park-encode,
  unpark-encode, pollers, parked, closed, mark_closed-encode,
}
use go_data_structures.Workq.Wait.Side.{
  Side, register, leave_polling, enlist, unlink, leave_list, take_token, set_closed,
}
use go_data_structures.Workq.Wait.Callers.{System, times, IsNew}
use go_data_structures.Workq.Wait.Results.{times-append, times_self, times-unlink, length-unlink}
use go_data_structures.Workq.Wait.Counted.{registered, Inv, pollers_now, parked_now, closed_now}

-- The value of a result that is known not to be a panic.
abbrev from_some : {A : Type 0} → A → Option A → A
from_some a none = a
from_some a (some b) = b

pub same_some : {A : Type 0} (a b : A) → some a ≡ some b → a ≡ b
same_some a b e = ap (from_some a) e

-- One caller in a list.
times_middle :
    (j : ℕ) (xs : List ℕ) (i : ℕ) (ys : List ℕ)
    → times j (xs ++ i ∷ ys) ≡ times j (xs ++ ys) + times j (i ∷ [])
times_middle j xs i ys = omega (arith, times-append j xs (i ∷ ys), times-append j xs ys)

length_middle : (xs : List ℕ) (i : ℕ) (ys : List ℕ) → length (xs ++ i ∷ ys) ≡ length (xs ++ ys) + 1
length_middle xs i ys = omega (arith, length-append xs (i ∷ ys), length-append xs ys)

module _ (s : System) (v : Inv s) where
  -- A caller with no token and on no list is on one once.
  once_new :
      (i : ℕ)
      → times i s.polling + times i s.chosen + times i s.side.list ≡ 0
      → (j : ℕ) → times j (i ∷ s.polling) + times j s.chosen + times j s.side.list ≤ 1
  once_new i h j = elim (ℕ_discrete i j) [
    | yes e ↦ let t : (i == j) ≡ true = ground arith in rw t (omega (arith, rw e at h))
    | no e ↦ let t : (i == j) ≡ false = ground arith in rw t (omega (arith, v.once j))
  ]

  pub register-Inv :
      (i : ℕ) (side : Side)
      → IsNew i s
      → register s.side ≡ (false, side)
      → Inv (record s { side = side; polling = i ∷ s.polling })
  unfolding register
  register-Inv i side (n, room) e = elim (Bool-cases (closed s.side.word)) [
    | inl t ↦ absurd (cc (ap (λ x. x.0) (rw t at e)))
    | inr t ↦
        let d = ap (λ x. x.1) (rw t at e) in
        rw (sym d) (record {
          is_closed = v.is_closed;
          word =
              rw v.word
                (enter-encode (registered s) (length s.side.list) v.room v.is_closed ∙ omega arith);
          room = omega (arith, room);
          tokens = v.tokens;
          once = once_new i n;
        })
  ]

  module _ (xs : List ℕ) (i : ℕ) (ys : List ℕ) (place : s.polling ≡ xs ++ i ∷ ys) where
    some_polling : 0 < registered s
    some_polling = omega (arith, ap length place, length_middle xs i ys)

    counted : registered s - 1 ≡ length (xs ++ ys) + length s.chosen
    counted = omega (arith, ap length place, length_middle xs i ys)

    pub leave_polling-some :
        (side : Side) × (leave_polling s.side ≡ some side)
        × Inv (record s { side = side; polling = xs ++ ys })
    unfolding leave_polling
    leave_polling-some =
        let t : (pollers s.side.word == 0) ≡ false =
          ground (arith, pollers_now s v, some_polling) in
        (
          record s.side { word = sub_word s.side.word one_poller },
          rw t refl,
          record {
            is_closed = v.is_closed;
            word = rw v.word (
                leave-encode (registered s) (length s.side.list) v.room v.is_closed some_polling
                ∙ omega (arith, counted));
            room = omega (arith, counted, v.room);
            tokens = v.tokens;
            once = λ j. omega (arith, v.once j, ap (times j) place, times_middle j xs i ys);
          },
        )

    -- A caller that finds the side closed stays registered.
    pub enlist-some :
        (at_oldest : Bool)
        → (enlist i at_oldest s.side ≡ some (true, s.side))
          ⊎ ((side : Side) × (enlist i at_oldest s.side ≡ some (false, side))
              × Inv (record s { side = side; polling = xs ++ ys }))
    unfolding enlist
    enlist-some at_oldest = elim (Bool-cases (closed s.side.word)) [
      | inl t ↦ inl (rw t refl)
      | inr t ↦
          let t' : (pollers s.side.word == 0) ≡ false =
            ground (arith, pollers_now s v, some_polling) in
          let list = if at_oldest then i ∷ s.side.list else s.side.list ++ i ∷ [] in
          let more : length list ≡ length s.side.list + 1 = longer at_oldest in
          inr (
            record s.side {
              word = add_word (sub_word s.side.word one_poller) one_parked;
              list = list;
            },
            rw (t, t') refl,
            record {
              is_closed = v.is_closed;
              word = rw v.word (
                  park-encode (registered s) (length s.side.list) v.room v.is_closed some_polling
                  ∙ omega (arith, counted, more));
              room = omega (arith, counted, some_polling, v.room, more);
              tokens = v.tokens;
              once = λ j.
                  omega (
                    arith,
                    v.once j,
                    ap (times j) place,
                    times_middle j xs i ys,
                    placed j at_oldest,
                  );
            },
          )
    ]
      where
        longer :
            (b : Bool)
            → length (if b then i ∷ s.side.list else s.side.list ++ i ∷ []) ≡ length s.side.list + 1
        longer true = omega arith
        longer false = omega (arith, length-append s.side.list (i ∷ []))

        placed :
            (j : ℕ) (b : Bool)
            → times j (if b then i ∷ s.side.list else s.side.list ++ i ∷ [])
              ≡ times j s.side.list + times j (i ∷ [])
        placed j true = omega arith
        placed j false = omega (arith, times-append j s.side.list (i ∷ []))

  -- A caller that is still listed takes itself off.
  pub leave_list-some :
      (i : ℕ)
      → 0 < times i s.side.list
      → (side : Side) × (leave_list i s.side ≡ some side) × Inv (record s { side = side })
  unfolding leave_list
  leave_list-some i h =
      let shorter = length-unlink i s.side.list h in
      let t : (parked s.side.word == 0) ≡ false = ground (arith, parked_now s v, shorter) in
      (
        record s.side { word = sub_word s.side.word one_parked; list = unlink i s.side.list },
        rw t refl,
        record {
          is_closed = v.is_closed;
          word = rw v.word (
              unpark-encode (registered s) (length s.side.list) v.room v.is_closed (omega arith)
              ∙ omega (arith, shorter));
          room = omega (arith, v.room, shorter);
          tokens = v.tokens;
          once = λ j. omega (arith, v.once j, times-unlink i j s.side.list h);
        },
      )

  -- A caller that was chosen has its token at once, and is then a poller.
  pub take_token-some :
      (xs : List ℕ) (i : ℕ) (ys : List ℕ)
      → s.chosen ≡ xs ++ i ∷ ys
      → (side : Side) × (take_token i s.side ≡ some side)
        × Inv (record { side = side; polling = i ∷ s.polling; chosen = xs ++ ys })
  unfolding take_token
  take_token-some xs i ys place =
      let one : 1 ≤ s.side.tokens i =
        omega (arith, v.tokens i, ap (times i) place, times_middle i xs i ys, times_self i []) in
      let t : (s.side.tokens i == 0) ≡ false = ground arith in
      (
        record s.side { tokens = update s.side.tokens i (s.side.tokens i - 1) },
        rw t refl,
        record {
          is_closed = v.is_closed;
          word = omega (arith, v.word, ap length place, length_middle xs i ys);
          room = omega (arith, v.room, ap length place, length_middle xs i ys);
          tokens = λ j. left j;
          once = λ j. omega (arith, v.once j, ap (times j) place, times_middle j xs i ys);
        },
      )
    where
      left : (j : ℕ) → update s.side.tokens i (s.side.tokens i - 1) j ≡ times j (xs ++ ys)
      left j = elim (ℕ_discrete j i) [
        | yes e ↦
            let u : (j == i) ≡ true = ground arith in
            let w : (i == j) ≡ true = ground arith in
            rw u (
              omega (
                arith,
                v.tokens i,
                ap (λ x. times x (xs ++ ys)) e,
                ap (times i) place,
                times_middle i xs i ys,
                times_self i [],
              ))
        | no e ↦
            let u : (j == i) ≡ false = ground arith in
            let w : (i == j) ≡ false = ground arith in
            rw u (omega (arith, v.tokens j, ap (times j) place, rw w at (times_middle j xs i ys)))
      ]

  pub set_closed-Inv : Inv (record s { side = (set_closed s.side).1 })
  unfolding set_closed
  set_closed-Inv = elim (Bool-cases (closed s.side.word)) [
    | inl t ↦ rw t v
    | inr t ↦
        let open_side : v.is_closed ≡ false = sym (closed_now s v) ∙ t in
        rw t (record {
          is_closed = true;
          word =
              rw (v.word, open_side)
                (mark_closed-encode (registered s) (length s.side.list) (omega (arith, v.room))
                  (omega (arith, v.room)));
          room = v.room;
          tokens = v.tokens;
          once = v.once;
        })
  ]
