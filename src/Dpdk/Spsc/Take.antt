-- ===== src/Dpdk/Spsc/Take.antt =====
-- The consumer's read: the oldest items, in order, their slots cleared if so configured.
use Prim.Native.Nat.{bit_and}
use go_data_structures.Base.{
  ℕ, zero, suc, ◌+◌, ◌-◌, ◌%◌, ◌≤◌, ◌<◌, ◌≡◌, refl, sym, ap, ap₂, ◌∙◌, List, [], ◌∷◌, ◌++◌, arith,
  length, add_u32, blit, blit-nil, min, take, drop, replicate, length-replicate, Bool, true, false,
  if◌then◌else◌, get_or,
}
use go_data_structures.Dpdk.Capacity.{capacity_bounds, index_lem, wrap_index}
use go_data_structures.Dpdk.Window.{window, window_mod, window_split, length-window}
use go_data_structures.Dpdk.Copies.{
  first_part, copy_in, copy_out_lem, length-copy_in, window-copy_in_after,
}
use go_data_structures.Dpdk.Spsc.Defs.{
  Queue, capacity, advance, take_item, take_items, clear_slots, filled_slots,
}
use go_data_structures.Dpdk.Spsc.Inv.{IsValid, used, contents, capacity_lem}
use native.Mathlib.Nat.{mod-lt}

module _ {T : Type 0} (zeroed : T) where
  take-replicate : (k n : ℕ) → k ≤ n → take k (replicate n zeroed) ≡ replicate k zeroed
  take-replicate zero n h = refl
  take-replicate (suc k) zero h = absurd (omega arith)
  take-replicate (suc k) (suc n) h = ap (◌∷◌ zeroed) (take-replicate k n (omega arith))

  drop-replicate : (k m n : ℕ) → n ≡ k + m → drop k (replicate n zeroed) ≡ replicate m zeroed
  drop-replicate zero m n e = ap (λ j. replicate j zeroed) (omega arith)
  drop-replicate (suc k) m zero e = absurd (omega arith)
  drop-replicate (suc k) m (suc n) e = drop-replicate k m n (omega arith)

  -- Clearing is a copy of zeros.
  clear_slots_lem :
      (es : List T) (bound base n : ℕ)
      → clear_slots zeroed es bound base n ≡ copy_in es bound base (replicate n zeroed)
  unfolding clear_slots copy_in
  clear_slots_lem es bound base n = rw (
    length-replicate n zeroed,
    take-replicate (first_part bound base n) n (omega arith),
    drop-replicate (first_part bound base n) (n - first_part bound base n) n (omega arith),
  )

  module _ {q : Queue T} (v : IsValid q) where
    index : bit_and q.consumer.cursor q.mask ≡ q.consumer.cursor % (q.mask + 1)
    index =
        let e : q.mask + 1 - 1 ≡ q.mask = omega arith in
        rw e at (index_lem v.shape q.consumer.cursor)

    some_slots : 0 < q.mask + 1
    some_slots = (capacity_bounds v.shape).0

    module _ (n : ℕ) (fits : n ≤ filled_slots q) where
      abbrev cleared : List T
      cleared =
          copy_in q.entries (q.mask + 1) (q.consumer.cursor % (q.mask + 1)) (replicate n zeroed)

      entries_left :
          (take_items zeroed n q).1.entries ≡ (if q.clear_on_dequeue then cleared else q.entries)
      unfolding take_items
      entries_left = rw (capacity_lem v, index, clear_slots_lem) refl

      length-entries_left : length (take_items zeroed n q).1.entries ≡ q.mask + 1
      length-entries_left = rw entries_left (either q.clear_on_dequeue)
        where
          either : (c : Bool) → length (if c then cleared else q.entries) ≡ q.mask + 1
          either true =
              length-copy_in zeroed q.entries (q.mask + 1) (q.consumer.cursor % (q.mask + 1)) v.size
                (mod-lt q.consumer.cursor some_slots) (replicate n zeroed)
          either false = v.size

      used-take_items : used (take_items zeroed n q).1 + n ≡ used q
      unfolding take_items
      used-take_items = omega (arith, capacity_bounds v.shape)

      pub take_items-IsValid : IsValid (take_items zeroed n q).1
      unfolding take_items
      take_items-IsValid = record {
        shape = v.shape;
        size = length-entries_left;
        producer_positions = omega arith;
        consumer_positions = omega arith;
        producer_cache = omega (arith, capacity_bounds v.shape);
        consumer_cache = omega (arith, capacity_bounds v.shape);
      }

      values : (take_items zeroed n q).0 ≡ window zeroed q.entries (q.mask + 1) q.consumer.cursor n
      unfolding take_items
      values =
          rw (capacity_lem v, index)
            (copy_out_lem zeroed q.entries (q.mask + 1) v.size some_slots q.consumer.cursor n
              (omega arith))

      window_left :
          (m : ℕ)
          → n + m ≤ q.mask + 1
          → window zeroed (take_items zeroed n q).1.entries (q.mask + 1) (q.consumer.cursor + n) m
            ≡ window zeroed q.entries (q.mask + 1) (q.consumer.cursor + n) m
      window_left m h = rw entries_left (either q.clear_on_dequeue)
        where
          either :
              (c : Bool)
              → window zeroed
                  (if c then cleared else q.entries)
                  (q.mask + 1)
                  (q.consumer.cursor + n)
                  m
                ≡ window zeroed q.entries (q.mask + 1) (q.consumer.cursor + n) m
          either true = rw length-replicate at (
              window-copy_in_after zeroed q.entries (q.mask + 1) v.size some_slots q.consumer.cursor
                m (replicate n zeroed) (omega (arith, length-replicate n zeroed)))
          either false = refl

      contents_left :
          contents zeroed (take_items zeroed n q).1
          ≡ window zeroed q.entries
              (q.mask + 1)
              (q.consumer.cursor + n)
              (used (take_items zeroed n q).1)
      unfolding contents take_items
      contents_left =
          window_mod zeroed (take_items zeroed n q).1.entries (q.mask + 1)
            (add_u32 q.consumer.cursor n) (q.consumer.cursor + n) (used (take_items zeroed n q).1)
            (wrap_index v.shape (q.consumer.cursor + n))
          ∙ window_left (used (take_items zeroed n q).1) (omega (arith, used-take_items))

      -- The items taken are the oldest, in order, and the others stay.
      pub contents-take_items :
          contents zeroed q ≡ (take_items zeroed n q).0 ++ contents zeroed (take_items zeroed n q).1
      unfolding contents
      contents-take_items =
          ap (window zeroed q.entries (q.mask + 1) q.consumer.cursor) total
          ∙ window_split zeroed q.entries (q.mask + 1) q.consumer.cursor n
              (used (take_items zeroed n q).1)
          ∙ ap₂ ◌++◌ (sym values) (sym (unfold contents in contents_left))
        where
          total : used q ≡ n + used (take_items zeroed n q).1
          total = omega (arith, used-take_items)

      pub length-take_items : length (take_items zeroed n q).0 ≡ n
      length-take_items =
          ap length values ∙ length-window zeroed q.entries (q.mask + 1) q.consumer.cursor n

    clear_one :
        clear_slots zeroed q.entries (capacity q) (bit_and q.consumer.cursor q.mask) 1
        ≡ blit q.entries (bit_and q.consumer.cursor q.mask) (zeroed ∷ [])
    unfolding clear_slots
    clear_one =
        let one : min 1 (capacity q - bit_and q.consumer.cursor q.mask) ≡ 1 =
          omega (arith, index, capacity_bounds v.shape, mod-lt q.consumer.cursor some_slots) in
        rw one (blit-nil (blit q.entries (bit_and q.consumer.cursor q.mask) (zeroed ∷ [])) 0)

    -- The read of one item is that of the batch of one.
    pub take_item_state : (take_item zeroed q).1 ≡ (take_items zeroed 1 q).1
    unfolding take_item take_items
    take_item_state =
        ap
          (λ es. record q {
            entries = if q.clear_on_dequeue then es else q.entries;
            consumer = advance 1 q.consumer;
          })
          (sym clear_one)

    pub take_item_value :
        1 ≤ filled_slots q → ((take_item zeroed q).0 ∷ []) ≡ (take_items zeroed 1 q).0
    unfolding take_item window
    take_item_value h =
        ap (λ i. get_or q.entries i zeroed ∷ []) index ∙ sym (unfold window in values 1 h)
