-- ===== src/Dpdk/Mpmc/State.antt =====
-- ring/dpdk/mpmc.go: the shared state, and a call as a sequence of atomic actions.
-- A position never wraps here. What memory holds, and all that the code computes on, is its residue
-- modulo 2 ^ 32, its `word`: a test of the code reads words only, and a compare-and-swap succeeds
-- when the words agree.
use Prim.Native.Nat.{bit_and}
use go_data_structures.Base.{
  ℕ, ◌+◌, ◌%◌, ◌^◌, Bool, List, [], ◌∷◌, ◌++◌, take, replicate, blit, get_or, add_u32, ◌==◌,
  if◌then◌else◌,
}
use go_data_structures.Dpdk.Copies.{copy_in, copy_out}
use go_data_structures.Dpdk.Mpmc.Admission.{
  Role, producer, consumer, Verdict, again, refused, granted, must_load, space, admit,
}

-- What the calls of the ordered protocol use of `mpmcConfig`.
pub record Config : Type 0 where
  pub mask : ℕ
  pub max_enqueue_batch : ℕ
  pub max_dequeue_batch : ℕ
  pub clear_on_dequeue : Bool
  pub exact_batch_counts : Bool

-- `mask + 1`
abbrev pub capacity : Config → ℕ
capacity cfg = add_u32 cfg.mask 1

-- A side: the reservation's `head`, the publication's `published` (here `tail`), and the
-- reservation's cached copy of the other side's `published`.
pub record Lane : Type 0 where
  pub head : ℕ
  pub tail : ℕ
  pub cache : ℕ

-- The shared state. `log` is no part of the program: it remembers what was enqueued at each
-- position.
pub record Mem (T : Type 0) : Type 0 where
  pub producers : Lane
  pub consumers : Lane
  pub entries : List T
  pub log : List T

-- The arguments of a reservation, and the items to write.
pub record Request (T : Type 0) : Type 0 where
  pub requested : ℕ
  pub fixed : Bool
  pub exact : Bool
  pub items : List T

-- Where a call stands, with the locals that are live there.
pub data Pc (T : Type 0) : Type 0 where
  idle : Pc T
  -- before the load of the head
  calling : (q : Request T) → Pc T
  -- before the load of the cache
  at_head : (q : Request T) (head : ℕ) → Pc T
  -- before the load of `published` of the other side
  loading : (q : Request T) (head cached : ℕ) → Pc T
  -- before the store of the cache
  storing : (q : Request T) (head published : ℕ) → Pc T
  -- before the compare-and-swap, or the return of a call that gets nothing
  deciding : (q : Request T) (head published : ℕ) → Pc T
  -- before the copy of the slots
  reserved : (q : Request T) (start count remaining : ℕ) → Pc T
  -- in `waitForTail`, and before the store that publishes
  copied : (start count remaining : ℕ) (out : List T) → Pc T
  returned : (start count remaining : ℕ) (out : List T) → Pc T

pub record Thread (T : Type 0) : Type 0 where
  pub role : Role
  pub pc : Pc T

abbrev pub word : ℕ → ℕ
word p = p % 2 ^ 32

abbrev pub other : Role → Role
other producer = consumer
other consumer = producer

module _ {T : Type 0} where
  abbrev pub lane : Role → Mem T → Lane
  lane producer m = m.producers
  lane consumer m = m.consumers

  abbrev pub set_lane : Role → Lane → Mem T → Mem T
  set_lane producer l m = record m { producers = l }
  set_lane consumer l m = record m { consumers = l }

  -- `mpmcWriteProducer`
  unfoldable pub write_slots : Config → ℕ → List T → List T → List T
  write_slots cfg start [] entries =
      copy_in entries (capacity cfg) (bit_and (word start) cfg.mask) []
  write_slots cfg start (x ∷ []) entries = blit entries (bit_and (word start) cfg.mask) (x ∷ [])
  write_slots cfg start (x ∷ y ∷ items) entries =
      copy_in entries (capacity cfg) (bit_and (word start) cfg.mask) (x ∷ y ∷ items)

  -- The store of the cache, the advance of the head, and the publication.
  abbrev pub set_cache : Role → ℕ → Mem T → Mem T
  set_cache r p m = set_lane r (record (lane r m) { cache = p }) m

  abbrev pub advance_head : Role → ℕ → Mem T → Mem T
  advance_head r k m = set_lane r (record (lane r m) { head = (lane r m).head + k }) m

  abbrev pub set_tail : Role → ℕ → Mem T → Mem T
  set_tail r p m = set_lane r (record (lane r m) { tail = p }) m

  -- The head's compare-and-swap. The log takes the items that will stand at the positions.
  abbrev pub reserve : Role → Request T → ℕ → Mem T → Mem T
  reserve producer q k m =
      let m' = advance_head producer k m in record m' { log = m.log ++ take k q.items }
  reserve consumer q k m = advance_head consumer k m

  -- The iteration's end, from the verdict.
  unfoldable pub conclude : Role → Request T → ℕ → Verdict → Mem T → Mem T × Pc T
  conclude r q h again m = (m, calling q)
  conclude r q h (refused n) m = (m, returned h 0 n [])
  conclude r q h (granted k n) m =
      if word (lane r m).head == word h
      then (reserve r q k m, reserved q (lane r m).head k n)
      else (m, calling q)

module _ {T : Type 0} (zeroed : T) where
  -- The clears of `mpmcReadConsumer`.
  unfoldable pub clear_slots : Config → ℕ → ℕ → List T → List T
  unfolding write_slots
  clear_slots cfg start n entries = write_slots cfg start (replicate n zeroed) entries

  -- `mpmcReadConsumer`: the items, and the slots that it leaves.
  unfoldable pub read_slots : Config → ℕ → ℕ → List T → List T × List T
  unfolding clear_slots
  read_slots cfg start n entries =
      let base = bit_and (word start) cfg.mask in
      (
        if n == 1 then get_or entries base zeroed ∷ [] else copy_out entries (capacity cfg) base n,
        if cfg.clear_on_dequeue then clear_slots cfg start n entries else entries,
      )

  -- The copy of a reserved interval.
  unfoldable pub transfer : Role → Config → Request T → ℕ → ℕ → Mem T → List T × Mem T
  unfolding write_slots read_slots
  transfer producer cfg q start k m =
      ([], record m { entries = write_slots cfg start (take k q.items) m.entries })
  transfer consumer cfg q start k m =
      let (out, entries) = read_slots cfg start k m.entries in (out, record m { entries = entries })

  -- The next atomic action of a call.
  unfoldable pub advance : Config → Role → Pc T → Mem T → Mem T × Pc T
  unfolding must_load space admit conclude transfer
  advance cfg r idle m = (m, idle)
  advance cfg r (calling q) m = (m, at_head q (lane r m).head)
  advance cfg r (at_head q h) m =
      let c = (lane r m).cache in
      if must_load r q.exact (capacity cfg) q.requested (word h) (word c)
      then (m, loading q h c)
      else (m, deciding q h c)
  advance cfg r (loading q h c) m =
      let p = (lane (other r) m).tail in
      if word p == word c then (m, deciding q h p) else (m, storing q h p)
  advance cfg r (storing q h p) m = (set_cache r p m, deciding q h p)
  advance cfg r (deciding q h p) m =
      conclude r q h
        (admit (capacity cfg) q.requested q.fixed (space r (capacity cfg) (word p) (word h))) m
  advance cfg r (reserved q s k n) m =
      let (out, m') = transfer r cfg q s k m in (m', copied s k n out)
  advance cfg r (copied s k n out) m =
      if word (lane r m).tail == word s
      then (set_tail r (s + k) m, returned s k n out)
      else (m, copied s k n out)
  advance cfg r (returned s k n out) m = (m, returned s k n out)
