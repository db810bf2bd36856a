-- ===== src/Workq/Wait/Results.antt =====
-- What the transitions do, when the word counts pollers and parked callers.
use go_data_structures.Base.{
  ℕ, zero, suc, ◌+◌, ◌≤◌, ◌<◌, ◌≡◌, refl, ap, arith, true, false, List, [], ◌∷◌, ◌++◌, length, take,
  drop, some, ◌==◌, if◌then◌else◌, update,
}
use native.Mathlib.Decide.{ℕ_discrete}
use go_data_structures.Workq.Wait.Side.{Side, send_tokens, unlink}
use go_data_structures.Workq.Wait.Callers.{times}

pub times-append : (i : ℕ) (xs ys : List ℕ) → times i (xs ++ ys) ≡ times i xs + times i ys
times-append i [] ys = omega arith
times-append i (x ∷ xs) ys = omega (arith, times-append i xs ys)

pub times-take-drop :
    (i n : ℕ) (xs : List ℕ) → times i (take n xs) + times i (drop n xs) ≡ times i xs
times-take-drop i zero xs = omega arith
times-take-drop i (suc n) [] = omega arith
times-take-drop i (suc n) (x ∷ xs) = omega (arith, times-take-drop i n xs)

pub times_self : (i : ℕ) (xs : List ℕ) → times i (i ∷ xs) ≡ 1 + times i xs
times_self i xs = let e : (i == i) ≡ true = ground arith in rw e refl

update-times :
    (tokens : ℕ → ℕ) (i : ℕ) (rest : List ℕ) (j : ℕ)
    → tokens i ≡ 0
    → update tokens i 1 j + times j rest ≡ tokens j + times j (i ∷ rest)
update-times tokens i rest j e = elim (ℕ_discrete j i) [
  | yes d ↦
      let t : (j == i) ≡ true = ground arith in
      let u : (i == j) ≡ true = ground arith in rw (t, u) (omega (arith, ap tokens d))
  | no d ↦
      let t : (j == i) ≡ false = ground arith in
      let u : (i == j) ≡ false = ground arith in rw (t, u) (omega arith)
]

-- Callers that are on the list once, and hold no token, get one each.
abbrev pub Sent : ℕ → Side → Side → Type 0
Sent n side side' =
    (side'.word ≡ side.word)
    × (side'.list ≡ drop n side.list)
    × ((i : ℕ) → side'.tokens i ≡ side.tokens i + times i (take n side.list))

pub send_tokens-Sent :
    (n word : ℕ) (list : List ℕ) (tokens : ℕ → ℕ)
    → n ≤ length list
    → ((i : ℕ) → tokens i + times i list ≤ 1)
    → (side' : Side) × (send_tokens n (record { word = word; list = list; tokens = tokens })
        ≡ some side')
      × Sent n (record { word = word; list = list; tokens = tokens }) side'
unfolding send_tokens
send_tokens-Sent zero word list tokens h k =
    (record { word = word; list = list; tokens = tokens }, refl, (refl, refl, λ i. omega arith))
send_tokens-Sent (suc n) word [] tokens h k = absurd (omega arith)
send_tokens-Sent (suc n) word (i ∷ rest) tokens h k =
    let free : tokens i ≡ 0 = omega (arith, k i, times_self i rest) in
    let none_held : (tokens i == 0) ≡ true = ground arith in
    let (side', e, (w, l, t)) =
      send_tokens-Sent n word rest (update tokens i 1) (omega arith)
        (λ j. omega (arith, update-times tokens i rest j free, k j)) in
    (
      side',
      rw none_held e,
      (w, l, λ j. omega (arith, t j, update-times tokens i (take n rest) j free)),
    )

-- A caller on the list is taken off it once.
pub times-unlink :
    (i j : ℕ) (list : List ℕ)
    → 0 < times i list
    → times j (unlink i list) + (if i == j then 1 else 0) ≡ times j list
unfolding unlink
times-unlink i j [] h = absurd (omega arith)
times-unlink i j (x ∷ list) h = elim (ℕ_discrete x i) [
  | yes e ↦
      let t : (x == i) ≡ true = ground arith in
      let u : (x == j) ≡ (i == j) = ap (λ y. y == j) e in rw (t, u) (omega arith)
  | no e ↦
      let t : (x == i) ≡ false = ground arith in
      rw t (omega (arith, times-unlink i j list (omega (arith, rw t at h))))
]

pub length-unlink :
    (i : ℕ) (list : List ℕ) → 0 < times i list → length (unlink i list) + 1 ≡ length list
unfolding unlink
length-unlink i [] h = absurd (omega arith)
length-unlink i (x ∷ list) h = elim (ℕ_discrete x i) [
  | yes e ↦ let t : (x == i) ≡ true = ground arith in rw t (omega arith)
  | no e ↦
      let t : (x == i) ≡ false = ground arith in
      rw t (omega (arith, length-unlink i list (omega (arith, rw t at h))))
]
