-- ===== src/Dpdk/Spsc/Spec.antt =====
-- The bounded queue that an SPSC queue implements: a list with a capacity and a limit for each
-- side's batches. An answer leaves out the free and filled counts, which caches make too low.
use go_data_structures.Base.{
  ℕ, ◌-◌, Option, none, some, List, [], ◌∷◌, ◌++◌, length, take, drop, min, ltb, ◌==◌,
  if◌then◌else◌,
}
use go_data_structures.Dpdk.Errors.{Error, full, empty, exceeds_capacity, exceeds_max_batch}

pub record Limits : Type 0 where
  pub slots : ℕ
  pub enqueue_limit : ℕ
  pub dequeue_limit : ℕ

pub data Call (T : Type 0) : Type 0 where
  enqueue : T → Call T
  dequeue : Call T
  enqueue_bulk : List T → Call T
  enqueue_burst : List T → Call T
  dequeue_bulk : ℕ → Call T
  dequeue_burst : ℕ → Call T
  reset : Call T

-- How many items the call put in, the items that it took out, and its error.
abbrev pub Answer : Type 0 → Type 0
Answer T = ℕ × List T × Option Error

abbrev pub refusal : {T : Type 0} → Error → Answer T
refusal e = (0, [], some e)

-- The error of a bulk call that is too long.
abbrev pub too_long : ℕ → Limits → Error
too_long n l = if ltb l.slots n then exceeds_capacity else exceeds_max_batch

module _ {T : Type 0} (l : Limits) where
  unfoldable pub put : List T → List T → Answer T × List T
  put items xs = ((length items, [], none), xs ++ items)

  unfoldable pub get : ℕ → List T → Answer T × List T
  get n xs = ((0, take n xs, none), drop n xs)

  unfoldable pub step : Call T → List T → Answer T × List T
  unfolding put get
  step (enqueue x) xs = if length xs == l.slots then (refusal full, xs) else put (x ∷ []) xs
  step dequeue xs = if length xs == 0 then (refusal empty, xs) else get 1 xs
  step (enqueue_bulk items) xs =
      if ltb l.enqueue_limit (length items)
      then (refusal (too_long (length items) l), xs)
      else if ltb (l.slots - length xs) (length items)
      then (refusal full, xs)
      else put items xs
  step (enqueue_burst items) xs =
      put (take (min (min (length items) l.enqueue_limit) (l.slots - length xs)) items) xs
  step (dequeue_bulk n) xs =
      if ltb l.dequeue_limit n
      then (refusal (too_long n l), xs)
      else if ltb (length xs) n
      then (refusal empty, xs)
      else get n xs
  step (dequeue_burst n) xs = get (min (min n l.dequeue_limit) (length xs)) xs
  step reset xs = ((0, [], none), [])

  unfoldable pub run : List (Call T) → List T → List (Answer T) × List T
  unfolding step
  run [] xs = ([], xs)
  run (c ∷ cs) xs = let (a, ys) = step c xs in let (answers, zs) = run cs ys in (a ∷ answers, zs)
