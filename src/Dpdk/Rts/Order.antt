-- ===== src/Dpdk/Rts/Order.antt =====
-- The invariant of a relaxed side, and what keeps it for a call that does nothing.
use go_data_structures.Base.{ℕ, ◌+◌, ◌≤◌, ◌<◌, ◌≡◌, sym, ◌∙◌, arith, List}
use go_data_structures.Dpdk.Rts.Side.{
  Mark, Side, Pc, working, counting, swapping, raising, measuring, lifting, finished,
}
use go_data_structures.Dpdk.Rts.Tally.{open_one, start_of, below_one, tally, Every}

-- An unfinished call's interval is not published.
abbrev pub Within : Side → ℕ → Type 0
Within m s = (m.tail.position ≤ s) × (s < m.head.position)

-- A tail that was loaded.
abbrev pub Loaded : Side → Mark → Type 0
Loaded m old =
    (old.count ≤ m.tail.count) × (old.count ≡ m.tail.count → old.position ≡ m.tail.position)

-- What a call knows. One that has loaded a tail, and then a head, knows how many operations have not
-- finished that were reserved before that head, as long as the tail stays.
abbrev pub Knows : Side → List Pc → Pc → Type 0
Knows m calls (working s) = Within m s
Knows m calls (counting s old) = Within m s × Loaded m old
Knows m calls (swapping s old head) =
    Within m s
    × Loaded m old
    × (s < head.position)
    × (head.position ≤ m.head.position)
    × (head.count ≤ m.head.count)
    × (head.count ≡ m.head.count → head.position ≡ m.head.position)
    × (old.count ≡ m.tail.count → tally (below_one head.position) calls + m.tail.count ≡ head.count)
Knows m calls raising = Unit
Knows m calls (measuring x) = x ≤ m.mirror
Knows m calls (lifting x t) = (x ≤ m.mirror) × (x ≤ t) × (t ≤ m.tail.position)
Knows m calls finished = Unit

pub record Inv (m : Side) (calls : List Pc) : Type 0 where
  pub counted : m.tail.count + tally open_one calls ≡ m.head.count
  pub ordered : m.tail.position ≤ m.head.position
  pub mirrored : m.mirror ≤ m.tail.position
  pub settled : m.tail.count ≡ m.head.count → m.tail.position ≡ m.head.position
  pub known : Every (Knows m calls) calls

-- What an action of a call, or a reservation, does to the others.
pub record Change (m : Side) (calls : List Pc) (m' : Side) (calls' : List Pc) : Type 0 where
  pub tail_count : m.tail.count ≤ m'.tail.count
  pub tail_position : m.tail.position ≤ m'.tail.position
  pub head_count : m.head.count ≤ m'.head.count
  pub head_position : m.head.position ≤ m'.head.position
  pub mirror : m.mirror ≤ m'.mirror
  pub tail_same : m'.tail.count ≡ m.tail.count → m'.tail.position ≡ m.tail.position
  pub head_same : m'.head.count ≡ m.head.count → m'.head.position ≡ m.head.position
  pub below_same :
      m'.tail.count ≡ m.tail.count
      → (x : ℕ) → x ≤ m.head.position
      → tally (below_one x) calls' ≡ tally (below_one x) calls

module _ {m m' : Side} {calls calls' : List Pc} (c : Change m calls m' calls') where
  Loaded-kept : (old : Mark) → Loaded m old → Loaded m' old
  Loaded-kept old (l, e) = (
    omega (arith, c.tail_count),
    λ d. omega (
      arith,
      c.tail_count,
      c.tail_same (omega (arith, c.tail_count)),
      e (omega (arith, c.tail_count)),
    ),
  )

  pub Knows-kept :
      (p : Pc)
      → (0 < open_one p → m'.tail.position ≤ start_of p)
      → Knows m calls p
      → Knows m' calls' p
  Knows-kept (working s) o (a, b) = (o (omega arith), omega (arith, c.head_position))
  Knows-kept (counting s old) o ((a, b), l) =
      ((o (omega arith), omega (arith, c.head_position)), Loaded-kept old l)
  Knows-kept (swapping s old head) o ((a, b), l, e, f, g, i, j) = (
    (o (omega arith), omega (arith, c.head_position)),
    Loaded-kept old l,
    e,
    omega (arith, c.head_position),
    omega (arith, c.head_count),
    λ d. i (omega (arith, c.head_count)) ∙ sym (c.head_same (omega (arith, c.head_count))),
    λ d.
        let same : m'.tail.count ≡ m.tail.count = omega (arith, l, c.tail_count) in
        omega (arith, c.below_same same head.position f, j (omega (arith, l, c.tail_count))),
  )
  Knows-kept raising o k = tt
  Knows-kept (measuring x) o k = omega (arith, c.mirror)
  Knows-kept (lifting x t) o (a, b, d) =
      (omega (arith, c.mirror), b, omega (arith, c.tail_position))
  Knows-kept finished o k = tt
