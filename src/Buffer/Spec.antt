-- ===== src/Buffer/Spec.antt =====
-- What `Buffer[T]` promises: a list of at most `bound` elements, removed at either end and extended
-- at the back. A call that panics changes nothing.
use go_data_structures.Base.{
  ℕ, ◌+◌, ◌-◌, ◌^◌, ◌≤◌, ◌<◌, List, [], ◌∷◌, ◌++◌, ltb, if◌then◌else◌, length, take, drop,
  replicate, is_negative,
}
use go_data_structures.Base.Go.{
  Outcome, returns, panics, append_exceeds, negative_grow, grow_exceeds, consume_range,
  truncate_range,
}

abbrev pub Reply : Type 0 → Type 0
Reply T = Outcome (Unit {0}) × List T

module _ {T : Type 0} where
  unfoldable pub consume : ℕ → List T → Reply T
  consume n xs = if ltb (length xs) n then (panics consume_range, xs) else (returns tt, drop n xs)

  unfoldable pub truncate : ℕ → List T → Reply T
  truncate n xs = if ltb (length xs) n then (panics truncate_range, xs) else (returns tt, take n xs)

  unfoldable pub consume_right : ℕ → List T → Reply T
  consume_right n xs =
      if ltb (length xs) n
      then (panics consume_range, xs)
      else (returns tt, take (length xs - n) xs)

  unfoldable pub append : ℕ → List T → List T → Reply T
  append bound vs xs =
      if ltb bound (length xs + length vs)
      then (panics append_exceeds, xs)
      else (returns tt, xs ++ vs)

  -- Growth by `vs`: the values that the caller fills in, or zeros.
  unfoldable pub grow : ℕ → List T → List T → Reply T
  grow bound vs xs =
      if ltb bound (length xs + length vs)
      then (panics grow_exceeds, xs)
      else (returns tt, xs ++ vs)

  -- Growth by `n` zeros, for any `int`.
  unfoldable pub grow_zeroed : ℕ → T → ℕ → List T → Reply T
  unfolding grow
  grow_zeroed bound empty n xs =
      if is_negative n then (panics negative_grow, xs) else grow bound (replicate n empty) xs

-- A client's calls. `fills` is `Grow` and the values that its caller then stores in the slice,
-- `grows_negative` is `Grow` with a negative count.
pub data Call (T : Type 0) : Type 0 where
  appends fills : List T → Call T
  grows_zeroed grows_negative consumes consumes_right truncates : ℕ → Call T
  consumes_zeroed consumes_right_zeroed truncates_zeroed : ℕ → Call T
  compacts compacts_zeroed resets resets_zeroed : Call T

-- The arguments are `int`s, negative ones included, and the sum of the capacity and what an append
-- or a growth adds does not pass the largest one.
abbrev pub InRange : {T : Type 0} → ℕ → Call T → Type 0
InRange bound (appends vs) = bound + length vs < 2 ^ 63
InRange bound (fills vs) = bound + length vs < 2 ^ 63
InRange bound (grows_zeroed n) = (n < 2 ^ 64) × (n < 2 ^ 63 → bound + n < 2 ^ 63)
InRange bound (grows_negative n) = (2 ^ 63 ≤ n) × (n < 2 ^ 64)
InRange bound (consumes n) = n < 2 ^ 64
InRange bound (consumes_right n) = n < 2 ^ 64
InRange bound (truncates n) = n < 2 ^ 64
InRange bound (consumes_zeroed n) = n < 2 ^ 64
InRange bound (consumes_right_zeroed n) = n < 2 ^ 64
InRange bound (truncates_zeroed n) = n < 2 ^ 64
InRange bound _ = Unit

abbrev pub AllInRange : {T : Type 0} → ℕ → List (Call T) → Type 0
AllInRange bound [] = Unit
AllInRange bound (c ∷ cs) = InRange bound c × AllInRange bound cs

module _ {T : Type 0} (bound : ℕ) (empty : T) where
  unfoldable pub step : Call T → List T → Reply T
  unfolding append grow grow_zeroed consume consume_right truncate
  step (appends vs) xs = append bound vs xs
  step (fills vs) xs = grow bound vs xs
  step (grows_zeroed n) xs = grow_zeroed bound empty n xs
  step (grows_negative n) xs = (panics negative_grow, xs)
  step (consumes n) xs = consume n xs
  step (consumes_right n) xs = consume_right n xs
  step (truncates n) xs = truncate n xs
  step (consumes_zeroed n) xs = consume n xs
  step (consumes_right_zeroed n) xs = consume_right n xs
  step (truncates_zeroed n) xs = truncate n xs
  step compacts xs = (returns tt, xs)
  step compacts_zeroed xs = (returns tt, xs)
  step resets xs = (returns tt, [])
  step resets_zeroed xs = (returns tt, [])

  -- What each call of a sequence answers, and what is left.
  unfoldable pub run : List (Call T) → List T → List (Outcome (Unit {0})) × List T
  run [] xs = ([], xs)
  run (c ∷ cs) xs = let (o, ys) = step c xs in let (os, zs) = run cs ys in (o ∷ os, zs)
