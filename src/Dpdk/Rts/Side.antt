-- ===== src/Dpdk/Rts/Side.antt =====
-- ring/dpdk/ring.go: `publishRelaxed` and `raiseMirror` as sequences of atomic actions. Positions and
-- counts never wrap here; memory holds the word that packs their residues modulo 2 ^ 32, and every
-- test of the code is on words.
use go_data_structures.Base.{
  ℕ, ◌+◌, ◌%◌, ◌^◌, ◌<◌, Bool, not, List, [], ◌∷◌, ◌++◌, add_u32, ◌==◌, if◌then◌else◌,
}
use go_data_structures.Dpdk.Words.{pack, unpack_pos, next_tail, is_raised}

abbrev pub word : ℕ → ℕ
word p = p % 2 ^ 32

-- A position, and how many operations led to it.
pub record Mark : Type 0 where
  pub position : ℕ
  pub count : ℕ

unfoldable pub mark_word : Mark → ℕ
mark_word m = pack (word m.position) (word m.count)

-- `headRTS`, `tailRTS` and `published` of a side.
pub record Side : Type 0 where
  pub head : Mark
  pub tail : Mark
  pub mirror : ℕ

-- A call that has reserved, with its first position until its finish is counted.
pub data Pc : Type 0 where
  -- before the load of the tail
  working : (start : ℕ) → Pc
  -- before the load of the head
  counting : (start : ℕ) (old : Mark) → Pc
  -- before the compare-and-swap of the tail
  swapping : (start : ℕ) (old head : Mark) → Pc
  -- in `raiseMirror`, before the load of the mirror, of the tail, and before the compare-and-swap
  raising : Pc
  measuring : (mirror : ℕ) → Pc
  lifting : (mirror target : ℕ) → Pc
  finished : Pc

-- What the word of `nextTail` stands for.
abbrev pub next_mark : Mark → Mark → Mark
next_mark old head = record {
  position = if add_u32 (word old.count) 1 == word head.count then head.position else old.position;
  count = old.count + 1;
}

-- What `publishRelaxed` reports.
unfoldable pub moved : Mark → Mark → Bool
unfolding mark_word
moved old head =
    not (unpack_pos (next_tail (mark_word old) (mark_word head)) == unpack_pos (mark_word old))

-- The next action of a call.
unfoldable pub advance : Pc → Side → Side × Pc
unfolding moved mark_word
advance (working s) m = (m, counting s m.tail)
advance (counting s old) m = (m, swapping s old m.head)
advance (swapping s old head) m =
    if mark_word m.tail == mark_word old
    then (record m { tail = next_mark old head }, if moved old head then raising else finished)
    else (m, working s)
advance raising m = (m, measuring m.mirror)
advance (measuring x) m =
    if is_raised (word x) (word m.tail.position)
    then (m, finished)
    else (m, lifting x m.tail.position)
advance (lifting x t) m =
    if word m.mirror == word x then (record m { mirror = t }, finished) else (m, raising)
advance finished m = (m, finished)

-- The compare-and-swap of a reservation of `k` positions.
abbrev pub reserve : ℕ → Side → Side
reserve k m = record m {
  head = record { position = m.head.position + k; count = m.head.count + 1 };
}

-- The documented limits: no observation is a cycle of positions or of counts old, and the mirror
-- lags by less than half a cycle.
abbrev pub IsFresh : Side → Pc → Type 0
IsFresh m (swapping s old head) =
    (m.tail.count < old.count + 2 ^ 32) × (head.count < old.count + 2 ^ 32)
IsFresh m (measuring x) = m.tail.position < x + 2 ^ 31
IsFresh m (lifting x t) = m.mirror < x + 2 ^ 32
IsFresh m p = Unit

abbrev pub empty_side : Side
empty_side = record {
  head = record { position = 0; count = 0 };
  tail = record { position = 0; count = 0 };
  mirror = 0;
}

-- The states of a side and its calls, in the order of their reservations.
pub data Reach : Side → List Pc → Type 0 where
  start : Reach empty_side []
  reserves :
      {m : Side} {calls : List Pc} (k : ℕ)
      → 0 < k
      → Reach m calls
      → Reach (reserve k m) (calls ++ working m.head.position ∷ [])
  acts :
      {m : Side} (xs : List Pc) (p : Pc) (ys : List Pc)
      → Reach m (xs ++ p ∷ ys)
      → IsFresh m p
      → Reach (advance p m).0 (xs ++ (advance p m).1 ∷ ys)
