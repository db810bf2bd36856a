-- ===== src/Lib.antt =====
-- Verification of go-data-structures: fixed-capacity buffers and lock-free ring queues in Go.
--
-- The program's parts. `buffer/` is a fixed-capacity buffer over one array, with a specialization
-- to bytes and a pool over `sync.Pool`. `ring/` is a family of bounded FIFO queues: `ring/dpdk`
-- follows DPDK's rte_ring for one or many producers and consumers, `ring/frontier` has producers
-- that do not wait for one another, and `ring/internal/shared` checks what all constructors take.
-- `workq/` has work queues, in memory and on SQLite. `set/`, `xslices/` and `xmaps/`
-- are small collections.
--
-- Which file models which code.
--   Base: helpers. Base.Ints has Go's `int` as a 64-bit pattern and `uint32` as a number below
--     2 ^ 32, both with their wrap written out; Base.Go has code over a state that may panic, with
--     the state kept as it stood at the panic; Base.Bits has the bitwise operations,
--     Base.Families families by goroutine.
--   Buffer (buffer/buffer.go, buffer/bytes_buffer.go, buffer/pool.go): Buffer.Defs has the record
--     of the array, `start`, `length` (here `count`) and the high-water mark, with one function per
--     method and per function they share. A slice that a method hands out is a `Span` of the array,
--     and a write through it is a write of the array. A slice expression checks its bounds as the
--     runtime does. Buffer.Inv is the invariant, Buffer.Spec the bounded list. Buffer.Bytes has
--     `Write`, `WriteByte` and `Read`, Buffer.Pool the pool over the interface `SyncPool`.
--   Dpdk: Dpdk.Shared (ring/internal/shared/shared.go), Dpdk.Errors (ring/errors.go,
--     ring/dpdk/errors.go), Dpdk.Options (ring/dpdk/options.go) and Dpdk.Spsc
--     (ring/dpdk/spsc.go). Dpdk.Spsc.Defs has the queue and its methods: `enqueue` is `Enqueue`,
--     `enqueue_batch` is `enqueueBatch`, and so on; `put_item`, `put_items`, `take_item` and
--     `take_items` are the writes and reads of the slots with the publication that follows, and
--     `enqueue_one` and `dequeue_one` the fast paths for one item. The two sides hold one array.
--     A destination slice is given by its length, and what is stored in it is returned. Dpdk.Window
--     and Dpdk.Copies are the lemmas on a circular array and a copy in two parts.
--     Dpdk.Mpmc (ring/dpdk/mpmc.go) is the ordered mode of the queue with many producers and
--     consumers. Dpdk.Mpmc.Admission has what a reservation decides, Dpdk.Mpmc.State the shared
--     state, a call's program counter and its next atomic action (`advance`), and Dpdk.Mpmc.System
--     any number of goroutines with their actions in any order (`Reach`). Positions are numbers
--     that never wrap; memory holds their residues modulo 2 ^ 32, and all tests of the code are on
--     these. `IsFresh` is the documented limit on how old an observation may be at a
--     compare-and-swap. The field `log` is no part of the program: it has the items by position, and
--     Dpdk.Mpmc.Linearization relates it to what the calls read from the array.
--     Dpdk.Mpmc.Methods has what `Enqueue` to `DequeueBurst` ask for and answer, and `Count` to
--     `Empty`, and Dpdk.Mpmc.Create the constructor. One action's copy stands for the single slot
--     accesses of a call, which are of slots that no other call holds. Dpdk.Mpmc.Alone,
--     Dpdk.Mpmc.Solo, Dpdk.Mpmc.Transfers and Dpdk.Mpmc.Answers follow one call that runs by itself.
--     Dpdk.Words and Dpdk.Rts (ring/dpdk/ring.go): the index words, and a relaxed side on which any
--     number of calls are in `publishRelaxed` and `raiseMirror`. A `Mark` is a position and a count
--     that never wrap; memory holds the word that packs their residues (`mark_word`), and
--     `next_mark` is the mark whose word `nextTail` computes. A reservation is any number of
--     positions, more than the admission and the distance limit let through.
--   Workq.Wait (workq/waitside.go): the callers that wait on one side of a work queue.
--     Workq.Wait.Word has the state word, Workq.Wait.Side the transitions (`wake_one` is
--     `wakeOneLocked`, and so on), each as one step: a critical section under the mutex, with the
--     compare-and-swap of the word that succeeds in it, or that compare-and-swap alone. A panic is
--     `none`. `leavePollingWith` and `leaveListWith` stand up to their cleanup, which is a wake or
--     nothing. Workq.Wait.Callers has the callers and their transitions in any order.
--   Set (set/set.go): Set.Maps has what Go's built-in map does to its keys and the loops over it,
--     Set.Defs the set with a nil map apart and one function per method.
--   Slices (xslices/slices.go): `Unique` and `Partition`.
--
-- Bounds. Capacities of rings are powers of two of at most 2 ^ 30 and positions wrap at 2 ^ 32;
-- buffers hold fewer than 2 ^ 63 elements. The loops of the parts modelled run over a slice, the
-- options or the keys of a map: they are structural recursions, and no fuel is used. A retry of a
-- reservation is a sequence of actions; a run of one call by itself takes at most seven.
-- Two limits that the documents set and the code does not check are part of the reachable states:
-- fewer than 2 ^ 31 callers wait on a side (workq/wakeup.md; `IsNew` in Workq.Wait.Callers), and an
-- observation of a ring's head or tail is less than a cycle of 2 ^ 32 positions old at the
-- compare-and-swap that relies on it (`IsFresh` in Dpdk.Mpmc.System), or than half a cycle where the
-- code compares signed distances (`IsFresh` in Dpdk.Rts.Side).
--
-- Not modelled. The sides of the SPSC queue are interleaved as whole calls. Of the MPMC queue whole
-- calls in the RTS mode are left out, and `waitForTail` is a poll per action, so its spins and
-- yields are the same. The MPSC and SPMC queues, ring/frontier, xmaps, the rest of xslices, and
-- workq but for its wait sides are not modelled. The links of a wait list stand as the list that
-- they spell, and diagnostic counters are left out. Memory is sequentially consistent, as Go's
-- atomics are. The texts of errors and panics, `String` and `GoString`, nil receivers and the limits
-- of the runtime's allocator are left out. workq/durable stands mostly in SQL; benchmarks, examples
-- and scripts are tools.

pub mod Base
pub mod Buffer
pub mod Dpdk
pub mod Set
pub mod Slices
pub mod Workq
