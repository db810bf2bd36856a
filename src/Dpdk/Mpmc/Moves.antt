-- ===== src/Dpdk/Mpmc/Moves.antt =====
-- A move keeps the invariant on positions.
use go_data_structures.Base.{
  ℕ, ◌≤◌, ◌≡◌, inl, inr, refl, sym, ap, arith, update, update_all, update_pairs,
}
use go_data_structures.Dpdk.Mpmc.Admission.{Role, producer, consumer}
use go_data_structures.Dpdk.Mpmc.State.{
  Config, capacity, Mem, Pc, idle, calling, at_head, loading, storing, deciding, reserved, copied,
  returned, Thread, set_cache, transfer,
}
use go_data_structures.Dpdk.Mpmc.Intervals.{
  Sees, Lies, Apart, InOrder, Inv, Blank-size, transfer-lanes, Move, looks, stores, waits, grants,
  copies, publishes,
}

module _ {T : Type 0} where
  -- Heads and publications only go up.
  abbrev Grows : Mem T → Mem T → Type 0
  Grows m m' =
      (m.producers.head ≤ m'.producers.head)
      × (m.producers.tail ≤ m'.producers.tail)
      × (m.consumers.head ≤ m'.consumers.head)
      × (m.consumers.tail ≤ m'.consumers.tail)

  Move-Grows :
      {zeroed : T} {cfg : Config} (r : Role) {m m' : Mem T} {p p' : Pc T}
      → Move zeroed cfg r m p m' p'
      → Grows m m'
  Move-Grows producer (stores c h e e' f) = omega arith
  Move-Grows producer (looks e e' f) = omega arith
  Move-Grows producer waits = omega arith
  Move-Grows producer (grants k n i h l f) = omega arith
  Move-Grows {zeroed} {cfg} producer {m = m} (copies {q} {s} {k} {n}) =
      let (e, e') = transfer-lanes zeroed cfg producer q s k m in
      omega
        (arith, ap (λ l. l.head) e, ap (λ l. l.tail) e, ap (λ l. l.head) e', ap (λ l. l.tail) e')
  Move-Grows producer (publishes h e) = omega arith
  Move-Grows consumer (stores c h e e' f) = omega arith
  Move-Grows consumer (looks e e' f) = omega arith
  Move-Grows consumer waits = omega arith
  Move-Grows consumer (grants k n i h l f) = omega arith
  Move-Grows {zeroed} {cfg} consumer {m = m} (copies {q} {s} {k} {n}) =
      let (e, e') = transfer-lanes zeroed cfg consumer q s k m in
      omega
        (arith, ap (λ l. l.head) e, ap (λ l. l.tail) e, ap (λ l. l.head) e', ap (λ l. l.tail) e')
  Move-Grows consumer (publishes h e) = omega arith

  Sees-Grows : (m m' : Mem T) (r : Role) (p : Pc T) → Grows m m' → Sees r m p → Sees r m' p
  Sees-Grows m m' r idle g s = s
  Sees-Grows m m' r (calling q) g s = s
  Sees-Grows m m' producer (at_head q h) g (i, a) = (i, omega arith)
  Sees-Grows m m' consumer (at_head q h) g (i, a) = (i, omega arith)
  Sees-Grows m m' producer (loading q h c) g (i, a) = (i, omega arith)
  Sees-Grows m m' consumer (loading q h c) g (i, a) = (i, omega arith)
  Sees-Grows m m' producer (storing q h c) g (i, a, b) = (i, omega arith, omega arith)
  Sees-Grows m m' consumer (storing q h c) g (i, a, b) = (i, omega arith, omega arith)
  Sees-Grows m m' producer (deciding q h c) g (i, a, b) = (i, omega arith, omega arith)
  Sees-Grows m m' consumer (deciding q h c) g (i, a, b) = (i, omega arith, omega arith)
  Sees-Grows m m' r (reserved q s k n) g h = h
  Sees-Grows m m' r (copied s k n out) g h = h
  Sees-Grows m m' r (returned s k n out) g h = h

  pub Apart-swap : (p u : Pc T) → Apart p u → Apart u p
  Apart-swap p u a g k = elim (a k g) [ inl h ↦ inr h | inr h ↦ inl h ]

  module _ {zeroed : T} {cfg : Config} where
    -- The lanes stay in order.
    pub Move-InOrder :
        (r r' : Role) {m m' : Mem T} {p p' : Pc T}
        → InOrder (capacity cfg) producer m
        → InOrder (capacity cfg) consumer m
        → Sees r m p
        → Lies r m p
        → Move zeroed cfg r m p m' p'
        → InOrder (capacity cfg) r' m'
    unfolding transfer
    Move-InOrder producer producer a b s l (stores c h e e' f) = omega arith
    Move-InOrder producer consumer a b s l (stores c h e e' f) = omega arith
    Move-InOrder consumer producer a b s l (stores c h e e' f) = omega arith
    Move-InOrder consumer consumer a b s l (stores c h e e' f) = omega arith
    Move-InOrder r producer a b s l (looks e e' f) = a
    Move-InOrder r consumer a b s l (looks e e' f) = b
    Move-InOrder r producer a b s l waits = a
    Move-InOrder r consumer a b s l waits = b
    Move-InOrder producer producer a b s l (grants k n i h h' f) = omega arith
    Move-InOrder producer consumer a b s l (grants k n i h h' f) = omega arith
    Move-InOrder consumer producer a b s l (grants k n i h h' f) = omega arith
    Move-InOrder consumer consumer a b s l (grants k n i h h' f) = omega arith
    Move-InOrder producer producer a b _ l (copies {q} {s} {k} {n}) = a
    Move-InOrder producer consumer a b _ l (copies {q} {s} {k} {n}) = b
    Move-InOrder consumer producer a b _ l (copies {q} {s} {k} {n}) = a
    Move-InOrder consumer consumer a b _ l (copies {q} {s} {k} {n}) = b
    Move-InOrder producer producer a b s l (publishes h e) = omega (arith, l h)
    Move-InOrder producer consumer a b s l (publishes h e) = omega (arith, l h)
    Move-InOrder consumer producer a b s l (publishes h e) = omega (arith, l h)
    Move-InOrder consumer consumer a b s l (publishes h e) = omega (arith, l h)

    -- What the mover knows afterwards.
    pub Move-Sees :
        (r : Role) {m m' : Mem T} {p p' : Pc T}
        → Sees r m p
        → Move zeroed cfg r m p m' p'
        → Sees r m' p'
    Move-Sees r {m} s (stores {pc = p} {pc' = p'} c h e e' f) =
        Sees-Grows m (set_cache r c m) r p'
          (Move-Grows {zeroed = zeroed} {cfg = cfg} r {p = p} (stores c h e e' f)) f
    Move-Sees r s (looks e e' f) = f
    Move-Sees r s waits = s
    Move-Sees r s (grants k n i h h' f) = (i, h, h')
    Move-Sees r z (copies {q} {s} {k} {n}) = z.1
    Move-Sees r s (publishes h e) = tt

    -- The interval that the mover then holds.
    pub Move-Lies :
        (r : Role) {m m' : Mem T} {p p' : Pc T}
        → InOrder (capacity cfg) r m
        → Lies r m p
        → Move zeroed cfg r m p m' p'
        → Lies r m' p'
    Move-Lies r a l (stores {pc' = p'} c h e e' f) g = absurd (omega (arith, Blank-size p' e'))
    Move-Lies r a l (looks {pc' = p'} e e' f) g = absurd (omega (arith, Blank-size p' e'))
    Move-Lies r a l waits g = l g
    Move-Lies producer a l (grants k n i h h' f) g = omega arith
    Move-Lies consumer a l (grants k n i h h' f) g = omega arith
    Move-Lies producer {m = m} a l (copies {q} {s} {k} {n}) g =
        let (e, e') = transfer-lanes zeroed cfg producer q s k m in rw e (l g)
    Move-Lies consumer {m = m} a l (copies {q} {s} {k} {n}) g =
        let (e, e') = transfer-lanes zeroed cfg consumer q s k m in rw e' (l g)
    Move-Lies r a l (publishes h e) g = absurd (omega arith)

    -- The intervals of the others stay between publication and head.
    other-Lies :
        (r r' : Role) {m m' : Mem T} {p p' : Pc T} (u : Pc T)
        → (r ≡ r' → Apart p u)
        → Lies r m p
        → Lies r' m u
        → Move zeroed cfg r m p m' p'
        → Lies r' m' u
    other-Lies producer producer u a l k (stores c h e e' f) g = k g
    other-Lies producer consumer u a l k (stores c h e e' f) g = k g
    other-Lies consumer producer u a l k (stores c h e e' f) g = k g
    other-Lies consumer consumer u a l k (stores c h e e' f) g = k g
    other-Lies r r' u a l k (looks e e' f) g = k g
    other-Lies r r' u a l k waits g = k g
    other-Lies producer producer u a l k (grants _ n i h h' f) g = omega (arith, k g)
    other-Lies producer consumer u a l k (grants _ n i h h' f) g = omega (arith, k g)
    other-Lies consumer producer u a l k (grants _ n i h h' f) g = omega (arith, k g)
    other-Lies consumer consumer u a l k (grants _ n i h h' f) g = omega (arith, k g)
    other-Lies r producer {m = m} u a l h (copies {q} {s} {k} {n}) g =
        let (e, e') = transfer-lanes zeroed cfg r q s k m in rw e (h g)
    other-Lies r consumer {m = m} u a l h (copies {q} {s} {k} {n}) g =
        let (e, e') = transfer-lanes zeroed cfg r q s k m in rw e' (h g)
    other-Lies producer producer u a l k (publishes h e) g = omega (arith, k g, a refl h g, l h)
    other-Lies producer consumer u a l k (publishes h e) g = omega (arith, k g)
    other-Lies consumer producer u a l k (publishes h e) g = omega (arith, k g)
    other-Lies consumer consumer u a l k (publishes h e) g = omega (arith, k g, a refl h g, l h)

    -- The mover's interval stays apart from those of the same side.
    Move-Apart :
        (r : Role) {m m' : Mem T} {p p' : Pc T} (u : Pc T)
        → Apart p u
        → Lies r m u
        → Move zeroed cfg r m p m' p'
        → Apart p' u
    Move-Apart r u a l (stores {pc' = p'} c h e e' f) g k = absurd (omega (arith, Blank-size p' e'))
    Move-Apart r u a l (looks {pc' = p'} e e' f) g k = absurd (omega (arith, Blank-size p' e'))
    Move-Apart r u a l waits g k = a g k
    Move-Apart r u a l (grants _ n i h h' f) g k = inr ((l k).1)
    Move-Apart r u a l (copies {q} {s} {k} {n}) g h = a g h
    Move-Apart r u a l (publishes h e) g k = absurd (omega arith)

  -- The relation between two calls that `Inv` asks for.
  abbrev pub Disjoint : Thread T → Thread T → Type 0
  Disjoint t u = t.role ≡ u.role → Apart t.pc u.pc

  pub Move-Inv :
      {zeroed : T} {cfg : Config} {m m' : Mem T} {threads : ℕ → Thread T} {p' : Pc T} (i : ℕ)
      → Inv (capacity cfg) m threads
      → Move zeroed cfg (threads i).role m (threads i).pc m' p'
      → Inv (capacity cfg) m' (update threads i (record { role = (threads i).role; pc = p' }))
  Move-Inv {zeroed} {cfg} {m} {m'} {threads} {p'} i v mv =
      let r = (threads i).role in
      let mover : Thread T = record { role = r; pc = p' } in
      record {
        producers = Move-InOrder r producer v.producers v.consumers (v.sees i) (v.lies i) mv;
        consumers = Move-InOrder r consumer v.producers v.consumers (v.sees i) (v.lies i) mv;
        sees =
            update_all (λ t. Sees t.role m' t.pc) threads i mover (Move-Sees r (v.sees i) mv)
              (λ j n. Sees-Grows m m' (threads j).role (threads j).pc (Move-Grows r mv) (v.sees j));
        lies =
            update_all (λ t. Lies t.role m' t.pc) threads i mover
              (Move-Lies r (order v r) (v.lies i) mv)
              (λ j n.
                other-Lies r (threads j).role (threads j).pc (v.apart i j (λ e. n (sym e)))
                  (v.lies i) (v.lies j) mv);
        apart =
            update_pairs Disjoint threads i mover (λ t u a e. Apart-swap t.pc u.pc (a (sym e)))
              (λ j n e.
                Move-Apart r (threads j).pc (v.apart i j (λ d. n (sym d)) e) (lies_of j e v) mv)
              v.apart;
      }
    where
      order : Inv (capacity cfg) m threads → (r : Role) → InOrder (capacity cfg) r m
      order v producer = v.producers
      order v consumer = v.consumers

      lies_of :
          (j : ℕ)
          → (threads i).role ≡ (threads j).role
          → Inv (capacity cfg) m threads
          → Lies (threads i).role m (threads j).pc
      lies_of j e v = rw e (v.lies j)
