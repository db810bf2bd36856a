-- ===== src/Dpdk/Mpmc/CreateTests.antt =====
-- A queue that `NewMPMCQueue` makes.
use go_data_structures.Base.{ℕ, ◌≡◌, refl, List, [], ◌∷◌, false, arith}
use go_data_structures.Dpdk.Options.{
  RingOption, with_max_batch, without_dequeue_clearing, ok, resolve_config, apply_all, apply,
  default_config, check_spins_before_yield, check_topology, check_head_tail_distance,
}
use go_data_structures.Dpdk.Shared.{check_capacity, check_max_batch}
use go_data_structures.Dpdk.Mpmc.Methods.{Method, request}
use go_data_structures.Dpdk.Mpmc.Requests.{IsAdmissible}
use go_data_structures.Dpdk.Mpmc.Create.{Settings, new_queue, IsUsable, new_queue_requests}

abbrev small_options : List RingOption
small_options = with_max_batch 2 ∷ without_dequeue_clearing ∷ []

abbrev small : Settings
small = record {
  ordered = record {
    mask = 3;
    max_enqueue_batch = 2;
    max_dequeue_batch = 2;
    clear_on_dequeue = false;
    exact_batch_counts = false;
  };
  prod_htd_max = 0;
  cons_htd_max = 0;
  spins_before_yield = 8192;
  producer_relaxed = false;
  consumer_relaxed = false;
}

small_queue : new_queue 4 small_options ≡ ok small
unfolding new_queue resolve_config apply_all apply default_config check_capacity check_max_batch
    check_spins_before_yield check_topology check_head_tail_distance
small_queue = refl

new_queue_requests_example :
    IsUsable 4 (ok small)
    × ((m : Method ℕ) → IsAdmissible small.ordered m (request small.ordered m))
new_queue_requests_example =
    new_queue_requests 4 small_options small (omega arith) (omega arith, (tt, tt)) small_queue
