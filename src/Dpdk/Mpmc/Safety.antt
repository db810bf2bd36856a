-- ===== src/Dpdk/Mpmc/Safety.antt =====
-- In every reachable state the intervals of the calls lie in their places.
use go_data_structures.Base.{ℕ, ◌+◌, sym, arith, update, update_all, update_pairs}
use go_data_structures.Dpdk.Capacity.{IsCapacity}
use go_data_structures.Dpdk.Mpmc.Admission.{Role}
use go_data_structures.Dpdk.Mpmc.State.{Config, capacity, Mem, Request, calling, Thread}
use go_data_structures.Dpdk.Mpmc.System.{
  System, IsRequest, act, call, Reach, start, acts, calls, resets, reset,
}
use go_data_structures.Dpdk.Mpmc.Intervals.{Sees, Lies, Inv}
use go_data_structures.Dpdk.Mpmc.Moves.{Disjoint, Apart-swap, Move-Inv}
use go_data_structures.Dpdk.Mpmc.Actions.{advance-Move}

module _ {T : Type 0} where
  call-Inv :
      {bound : ℕ} {m : Mem T} {threads : ℕ → Thread T} (i : ℕ) (r : Role) (q : Request T)
      → IsRequest r q
      → Inv bound m threads
      → Inv bound m (update threads i (record { role = r; pc = calling q }))
  call-Inv {m} {threads} i r q h v =
      let mover : Thread T = record { role = r; pc = calling q } in
      record {
        producers = v.producers;
        consumers = v.consumers;
        sees = update_all (λ t. Sees t.role m t.pc) threads i mover h (λ j n. v.sees j);
        lies =
            update_all (λ t. Lies t.role m t.pc) threads i mover (λ g. absurd (omega arith))
              (λ j n. v.lies j);
        apart =
            update_pairs Disjoint threads i mover (λ t u a e. Apart-swap t.pc u.pc (a (sym e)))
              (λ j n e g. absurd (omega arith)) v.apart;
      }

  module _ (zeroed : T) (cfg : Config) (c : IsCapacity (cfg.mask + 1)) where
    pub Reach-Inv : {s : System T} → Reach zeroed cfg s → Inv (capacity cfg) s.mem s.threads
    unfolding act call reset
    Reach-Inv start = record {
      producers = omega arith;
      consumers = omega arith;
      sees = λ i. tt;
      lies = λ i g. absurd (omega arith);
      apart = λ i j n e g. absurd (omega arith);
    }
    Reach-Inv (acts {s} i r f) =
        let v = Reach-Inv r in
        Move-Inv i v (
          advance-Move cfg c zeroed (s.threads i).role s.mem (s.threads i).pc v.producers
            v.consumers (v.sees i) (v.lies i) f)
    Reach-Inv (resets k d) = record {
      producers = omega arith;
      consumers = omega arith;
      sees = λ i. tt;
      lies = λ i g. absurd (omega arith);
      apart = λ i j n e g. absurd (omega arith);
    }
    Reach-Inv (calls {s} i r q k d h) = call-Inv i r q h (Reach-Inv k)
