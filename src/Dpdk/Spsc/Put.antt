-- ===== src/Dpdk/Spsc/Put.antt =====
-- The producer's write: items go behind those that the queue holds.
use Prim.Native.Nat.{bit_and}
use go_data_structures.Base.{
  ◌+◌, ◌-◌, ◌%◌, ◌^◌, ◌≤◌, ◌<◌, ◌≡◌, refl, sym, ap, ap₂, ◌∙◌, List, [], ◌∷◌, ◌++◌, arith, length,
  blit, blit-nil, min,
}
use go_data_structures.Dpdk.Capacity.{capacity_bounds, index_lem, wrap_index}
use go_data_structures.Dpdk.Window.{window, window_mod, window_split}
use go_data_structures.Dpdk.Copies.{
  copy_in, length-copy_in, window-copy_in_self, window-copy_in_before,
}
use go_data_structures.Dpdk.Spsc.Defs.{Queue, capacity, advance, put_item, put_items}
use go_data_structures.Dpdk.Spsc.Inv.{IsValid, used, seen_used, contents, capacity_lem}
use native.Mathlib.Nat.{mod-lt}

module _ {T : Type 0} (zeroed : T) {q : Queue T} (v : IsValid q) where
  -- The producer's position is that of the consumer and the items in between.
  producer_index : q.producer.cursor % (q.mask + 1) ≡ (q.consumer.cursor + used q) % (q.mask + 1)
  producer_index =
      let e : q.producer.cursor ≡ (q.consumer.cursor + used q) % 2 ^ 32 =
        omega (arith, capacity_bounds v.shape) in
      ap (λ x. x % (q.mask + 1)) e ∙ wrap_index v.shape (q.consumer.cursor + used q)

  index : bit_and q.producer.cursor q.mask ≡ q.producer.cursor % (q.mask + 1)
  index =
      let e : (q.mask + 1) - 1 ≡ q.mask = omega arith in
      rw e at (index_lem v.shape q.producer.cursor)

  some_slots : 0 < q.mask + 1
  some_slots = (capacity_bounds v.shape).0

  module _ (items : List T) (fits : seen_used q + length items ≤ (q.mask + 1)) where
    put_items_entries :
        (put_items items q).entries
        ≡ copy_in q.entries (q.mask + 1) (q.producer.cursor % (q.mask + 1)) items
    unfolding put_items
    put_items_entries = rw (capacity_lem v, index) refl

    pub used-put_items : used (put_items items q) ≡ used q + length items
    unfolding put_items
    used-put_items = omega (arith, capacity_bounds v.shape)

    pub put_items-IsValid : IsValid (put_items items q)
    unfolding put_items
    put_items-IsValid = record {
      shape = v.shape;
      size =
          ap length put_items_entries
          ∙ length-copy_in zeroed q.entries (q.mask + 1) (q.producer.cursor % (q.mask + 1)) v.size
              (mod-lt q.producer.cursor (capacity_bounds v.shape).0) items;
      producer_positions = omega arith;
      consumer_positions = omega arith;
      producer_cache = omega (arith, capacity_bounds v.shape);
      consumer_cache = omega (arith, capacity_bounds v.shape);
    }

    written : List T
    written = copy_in q.entries (q.mask + 1) (q.producer.cursor % (q.mask + 1)) items

    window-written_old :
        window zeroed written (q.mask + 1) q.consumer.cursor (used q) ≡ contents zeroed q
    unfolding contents written
    window-written_old = rw producer_index (
        window-copy_in_before zeroed q.entries (q.mask + 1) v.size some_slots q.consumer.cursor
          (used q) items (omega arith))

    window-written_new :
        window zeroed written (q.mask + 1) (q.consumer.cursor + used q) (length items) ≡ items
    unfolding written
    window-written_new =
        window_mod zeroed written (q.mask + 1) (q.consumer.cursor + used q) q.producer.cursor
          (length items) (sym producer_index)
        ∙ window-copy_in_self zeroed q.entries (q.mask + 1) v.size some_slots q.producer.cursor
            items (omega arith)

    -- The items stand behind those that were there.
    pub contents-put_items : contents zeroed (put_items items q) ≡ contents zeroed q ++ items
    unfolding contents put_items written
    contents-put_items =
        ap₂ (λ es n. window zeroed es (q.mask + 1) q.consumer.cursor n) put_items_entries
          used-put_items
        ∙ window_split zeroed written (q.mask + 1) q.consumer.cursor (used q) (length items)
        ∙ ap₂ ◌++◌ window-written_old window-written_new

  -- The write of one item is that of the batch of it.
  pub put_item_lem : (x : T) → put_item x q ≡ put_items (x ∷ []) q
  unfolding put_item put_items copy_in
  put_item_lem x =
      let one : min 1 (capacity q - bit_and q.producer.cursor q.mask) ≡ 1 =
        omega (arith, index, capacity_bounds v.shape, mod-lt q.producer.cursor some_slots) in
      rw one (
        ap (λ es. record q { entries = es; producer = advance 1 q.producer })
          (sym (blit-nil (blit q.entries (bit_and q.producer.cursor q.mask) (x ∷ [])) 0)))
