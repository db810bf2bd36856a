-- ===== src/Dpdk/Rts/Tally.antt =====
-- Counting the calls of a side that have not finished.
use go_data_structures.Base.{
  ℕ, ◌+◌, ◌≤◌, ◌<◌, ◌≡◌, refl, arith, List, [], ◌∷◌, ◌++◌, ltb, if◌then◌else◌,
}
use go_data_structures.Dpdk.Rts.Side.{
  Pc, working, counting, swapping, raising, measuring, lifting, finished,
}

-- 1 for a call whose finish is not counted yet.
abbrev pub open_one : Pc → ℕ
open_one (working s) = 1
open_one (counting s old) = 1
open_one (swapping s old head) = 1
open_one p = 0

abbrev pub start_of : Pc → ℕ
start_of (working s) = s
start_of (counting s old) = s
start_of (swapping s old head) = s
start_of p = 0

-- 1 for such a call that starts before `x`.
abbrev pub below_one : ℕ → Pc → ℕ
below_one x p = if ltb (start_of p) x then open_one p else 0

abbrev pub tally : (Pc → ℕ) → List Pc → ℕ
tally f [] = 0
tally f (p ∷ calls) = f p + tally f calls

pub tally-append : (f : Pc → ℕ) (xs ys : List Pc) → tally f (xs ++ ys) ≡ tally f xs + tally f ys
tally-append f [] ys = omega arith
tally-append f (x ∷ xs) ys = omega (arith, tally-append f xs ys)

abbrev pub Every : (Pc → Type 0) → List Pc → Type 0
Every P [] = Unit
Every P (p ∷ calls) = P p × Every P calls

module _ (P : Pc → Type 0) where
  pub Every-append : (xs ys : List Pc) → Every P xs → Every P ys → Every P (xs ++ ys)
  Every-append [] ys h k = k
  Every-append (x ∷ xs) ys (p, h) k = (p, Every-append xs ys h k)

  pub Every-left : (xs ys : List Pc) → Every P (xs ++ ys) → Every P xs
  Every-left [] ys h = tt
  Every-left (x ∷ xs) ys (p, h) = (p, Every-left xs ys h)

  pub Every-right : (xs ys : List Pc) → Every P (xs ++ ys) → Every P ys
  Every-right [] ys h = h
  Every-right (x ∷ xs) ys (p, h) = Every-right xs ys h

  pub Every-map :
      (Q : Pc → Type 0) (xs : List Pc) → ((p : Pc) → P p → Q p) → Every P xs → Every Q xs
  Every-map Q [] f h = tt
  Every-map Q (x ∷ xs) f (p, h) = (f x p, Every-map Q xs f h)

-- The same with a second property at hand.
pub Every-map2 :
    (P Q R : Pc → Type 0) (xs : List Pc)
    → ((p : Pc) → P p → Q p → R p)
    → Every P xs
    → Every Q xs
    → Every R xs
Every-map2 P Q R [] f h k = tt
Every-map2 P Q R (x ∷ xs) f (p, h) (q, k) = (f x p q, Every-map2 P Q R xs f h k)

-- When no unfinished call starts before `x`, all of them start behind it.
pub none_below :
    (x : ℕ) (calls : List Pc)
    → tally (below_one x) calls ≡ 0
    → Every (λ p. 0 < open_one p → x ≤ start_of p) calls
none_below x [] e = tt
none_below x (p ∷ calls) e = ((λ h. ground arith), none_below x calls (omega arith))

-- When all unfinished calls start before `x`, it counts them all.
pub all_below :
    (x : ℕ) (calls : List Pc)
    → Every (λ p. 0 < open_one p → start_of p < x) calls
    → tally (below_one x) calls ≡ tally open_one calls
all_below x [] h = refl
all_below x (p ∷ calls) (k, h) = omega (arith, all_below x calls h, below p k)
  where
    below : (q : Pc) → (0 < open_one q → start_of q < x) → below_one x q ≡ open_one q
    below (working s) l = ground (arith, l (omega arith))
    below (counting s old) l = ground (arith, l (omega arith))
    below (swapping s old head) l = ground (arith, l (omega arith))
    below raising l = ground arith
    below (measuring y) l = ground arith
    below (lifting y t) l = ground arith
    below finished l = ground arith
