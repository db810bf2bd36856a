-- ===== src/Dpdk/Spsc/Defs.antt =====
-- ring/dpdk/spsc.go: the queue and its methods.
pub mod State
pub mod Produce
pub mod Consume
pub use go_data_structures.Dpdk.Spsc.Defs.State.{Side, Queue}
unfoldable pub use go_data_structures.Dpdk.Spsc.Defs.State.{
  advance, capacity, count, free, is_full, is_empty, free_slots, filled_slots, load_consumer,
  load_producer, is_short, reset,
}
unfoldable pub use go_data_structures.Dpdk.Spsc.Defs.Produce.{
  put_item, put_items, enqueue, one_admitted, enqueue_one, enqueue_admitted, must_load,
  enqueue_batch, fresh_free, bulk_result, enqueue_bulk, enqueue_clamped, enqueue_burst,
}
unfoldable pub use go_data_structures.Dpdk.Spsc.Defs.Consume.{
  bulk_items, fresh_filled, must_reload, take_item, clear_slots, take_items, dequeue, one_taken,
  dequeue_one, dequeue_admitted, dequeue_batch, dequeue_bulk, dequeue_burst,
}
