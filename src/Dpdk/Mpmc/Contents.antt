-- ===== src/Dpdk/Mpmc/Contents.antt =====
-- What stands in the slots: the item that was enqueued at the position, from its copy on until the
-- slot's release.
use go_data_structures.Base.{
  ℕ, zero, suc, slice-zero, ◌+◌, ◌≤◌, ◌<◌, ◌≡◌, ◌⊎◌, inl, inr, sym, ap, ◌∙◌, arith, List, ◌++◌,
  length, get_or, slice, get_or-append_left, slice-append_left, length-append, take,
}
use go_data_structures.Dpdk.Mpmc.Admission.{Role, producer, consumer}
use go_data_structures.Dpdk.Mpmc.State.{
  Config, capacity, Mem, Pc, idle, calling, at_head, loading, storing, deciding, reserved, copied,
  returned, Thread,
}
use go_data_structures.Dpdk.Mpmc.Intervals.{first, size, Sees, Lies}
use go_data_structures.Dpdk.Mpmc.Slots.{slot}

module _ {T : Type 0} (zeroed : T) (cfg : Config) where
  -- The slots of an interval hold what the log has there.
  abbrev pub Held : List T → List T → ℕ → ℕ → Type 0
  Held entries log s k =
      (j : ℕ) → j < k → slot zeroed cfg entries (s + j) ≡ get_or log (s + j) zeroed

  -- What a call knows of the data: a producer that has reserved is to write what the log has, a
  -- consumer that has reserved finds that, and what it has read is that.
  abbrev pub Knows : Role → Mem T → Pc T → Type 0
  Knows producer m (reserved q s k n) =
      (j : ℕ) → j < k → get_or m.log (s + j) zeroed ≡ get_or (take k q.items) j zeroed
  Knows producer m (copied s k n out) = Held m.entries m.log s k
  Knows consumer m (reserved q s k n) = Held m.entries m.log s k
  Knows consumer m (copied s k n out) = out ≡ slice m.log s k
  Knows consumer m (returned s k n out) = (0 < k → s + k ≤ length m.log) × (out ≡ slice m.log s k)
  Knows r m pc = Unit

  pub record Data (m : Mem T) (threads : ℕ → Thread T) : Type 0 where
    pub full : length m.entries ≡ capacity cfg
    pub logged : length m.log ≡ m.producers.head
    pub stored :
        (x : ℕ)
        → m.consumers.head ≤ x
        → x < m.producers.tail
        → slot zeroed cfg m.entries x ≡ get_or m.log x zeroed
    pub knows : (i : ℕ) → Knows (threads i).role m (threads i).pc

  -- The log only gets longer.
  abbrev pub Extends : Mem T → Mem T → Type 0
  Extends m m' = (ys : List T) × (m'.log ≡ m.log ++ ys)

  -- Only the slots of the mover's interval may change, of those in use.
  abbrev pub Spares : Mem T → Mem T → Pc T → Type 0
  Spares m m' p =
      (x : ℕ)
      → m.consumers.tail ≤ x
      → x < m.producers.head
      → (0 < size p → (x < first p) ⊎ (first p + size p ≤ x))
      → slot zeroed cfg m'.entries x ≡ slot zeroed cfg m.entries x

  -- An action of a call at `p` on the data.
  pub record Change (p : Pc T) (m m' : Mem T) : Type 0 where
    pub consumers_order :
        (m.consumers.tail ≤ m.consumers.head) × (m.consumers.head ≤ m.producers.tail)
    pub producers_order : m.producers.tail ≤ m.producers.head
    pub logged : length m.log ≡ m.producers.head
    pub extends : Extends m m'
    pub spares : Spares m m' p

  module _ {p : Pc T} {m m' : Mem T} (c : Change p m m') where
    pub log_kept : (x : ℕ) → x < length m.log → get_or m'.log x zeroed ≡ get_or m.log x zeroed
    log_kept x h = rw c.extends.1 (get_or-append_left m.log c.extends.0 x zeroed h)

    pub slice_kept : (x k : ℕ) → x + k ≤ length m.log → slice m'.log x k ≡ slice m.log x k
    slice_kept x k h = rw c.extends.1 (slice-append_left m.log c.extends.0 x k h)

    pub log-longer : length m.log ≤ length m'.log
    log-longer = omega (arith, ap length c.extends.1, length-append m.log c.extends.0)

    pub Held-kept :
        (x k : ℕ)
        → m.consumers.tail ≤ x
        → x + k ≤ m.producers.head
        → (0 < size p → (x + k ≤ first p) ⊎ (first p + size p ≤ x))
        → Held m.entries m.log x k
        → Held m'.entries m'.log x k
    Held-kept x k l u d h j i =
        c.spares (x + j) (omega arith) (omega arith) (λ g. aside (d g))
        ∙ h j i
        ∙ sym (log_kept (x + j) (omega (arith, c.logged)))
      where
        aside :
            (x + k ≤ first p) ⊎ (first p + size p ≤ x)
            → (x + j < first p) ⊎ (first p + size p ≤ x + j)
        aside (inl g) = inl (omega arith)
        aside (inr g) = inr (omega arith)

    -- What another call knows stays true.
    pub Knows-kept :
        (r : Role) (u : Pc T)
        → Lies r m u
        → Sees r m u
        → (0 < size p → 0 < size u → (first p + size p ≤ first u) ⊎ (first u + size u ≤ first p))
        → Knows r m u
        → Knows r m' u
    Knows-kept producer (reserved q s k n) l z a h =
        λ j i. log_kept (s + j) (omega (arith, l z.1, c.logged)) ∙ h j i
    Knows-kept producer (copied s k n out) l z a h =
        Held-kept s k (omega (arith, l z, c.consumers_order, c.producers_order)) (l z).1
          (λ g. elim (a g z) [ inl d ↦ inr d | inr d ↦ inl d ]) h
    Knows-kept consumer (reserved q s k n) l z a h =
        Held-kept s k (l z.1).0 (omega (arith, l z.1, c.consumers_order, c.producers_order))
          (λ g. elim (a g z.1) [ inl d ↦ inr d | inr d ↦ inl d ]) h
    Knows-kept consumer (copied s k n out) l z a h =
        h
        ∙ sym (slice_kept s k (omega (arith, l z, c.consumers_order, c.producers_order, c.logged)))
    Knows-kept consumer (returned s k n out) l z a (g, h) =
        ((λ f. omega (arith, log-longer, g f)), h ∙ sym (read k g))
      where
        read : (k' : ℕ) → (0 < k' → s + k' ≤ length m.log) → slice m'.log s k' ≡ slice m.log s k'
        read zero g' = slice-zero m'.log s ∙ sym (slice-zero m.log s)
        read (suc k') g' = slice_kept s (suc k') (g' (omega arith))
    Knows-kept producer idle l z a h = tt
    Knows-kept producer (calling q) l z a h = tt
    Knows-kept producer (at_head q e) l z a h = tt
    Knows-kept producer (loading q e f) l z a h = tt
    Knows-kept producer (storing q e f) l z a h = tt
    Knows-kept producer (deciding q e f) l z a h = tt
    Knows-kept producer (returned s k n out) l z a h = tt
    Knows-kept consumer idle l z a h = tt
    Knows-kept consumer (calling q) l z a h = tt
    Knows-kept consumer (at_head q e) l z a h = tt
    Knows-kept consumer (loading q e f) l z a h = tt
    Knows-kept consumer (storing q e f) l z a h = tt
    Knows-kept consumer (deciding q e f) l z a h = tt
