-- ===== src/Lib.antt =====
-- gc-united: eight garbage collectors over one shared heap, and the parts they share.
--
-- The program. A heap (crates/gc-core/src/heap.rs) is one array of bytes; an object is a block of it,
-- a header of 16 bytes, then reference slots, then payload, and a handle is the offset of the header.
-- On it stand a free-list space (crates/gc-core/src/space.rs), the roots that the program holds
-- (crates/gc-core/src/roots.rs), the counters (crates/gc-core/src/stats.rs), and an independent model
-- of the object graph (crates/gc-core/src/model.rs) against which a collector is checked. Each
-- collector (crates/gc-mod01 to gc-mod08) owns a heap or a space, its roots and its counters.
--
-- The files.
--   Base         what all share: lists over the native numbers, `Exec` for code that may panic, and
--                the arithmetic of u32 and u64.
--   Heap         crates/gc-core/src/heap.rs. `Heap` is the array with its length, each accessor a
--                function with the bounds check of the slice it indexes. Arena has the words and
--                `size_for`, Header the header fields, Payload slots and data, Place `emplace`,
--                `emplace_block`, `relocate`, `poison` and `walk`. The other children hold proofs.
--   Space        crates/gc-core/src/space.rs, all of it. Space/Invariant says what holds between the
--                operations; Search, Carve, Alloc, Extend and Outcome follow `alloc`, Return, Free and
--                Twice follow `free`, Holes, Merge, Pass, MergeLoop, Gaps and Coalesce follow `coalesce`,
--                Audit, Crossed and Validate follow `validate`, Poke is for writes inside a block, and
--                Apart and Slots say that blocks, headers and slots do not meet.
--   Roots, Stats crates/gc-core/src/roots.rs; crates/gc-core/src/stats.rs and the error type of
--                crates/gc-core/src/collector.rs.
--   Model        crates/gc-core/src/model.rs. Model/Reach relates `reachable` to paths from the roots,
--                Model/Forget does so for `forget_unreachable`.
--   RefCount     crates/gc-mod02/src/lib.rs. Counts is on `retain` and a shared `release`, Last on the
--                release of a last reference, Store and Write on `write_field`.
--   Allocator    crates/gc-mod01/src/lib.rs. `view` reads its heap as a space, so that the invariant of
--                Space serves here too; Fit and Outcome are on `alloc`, Free and Order on `free`,
--                Split on what a split does to the order of the free list.
--   MarkSweep    crates/gc-mod04/src/lib.rs. `reclaim` is `sweep` without the coalescing at its end;
--                Doomed and Reclaim are on its two loops, Sweep on the whole.
--   Incremental  crates/gc-mod08/src/lib.rs. Barrier is on the colours after a store.
--   CycleCollector
--                crates/gc-mod03/src/lib.rs. Touch is on writes to a header, Counts on `retain` and a
--                shared `release`, Write on `write_field`, Restored and Black on `scan_black`.
--   Marking      the loop of the mark phase, the same in crates/gc-mod05/src/lib.rs and
--                crates/gc-mod07/src/lib.rs. Graph is the heap as a graph of objects, Reach relates
--                the marks to paths from the roots.
--   MarkCompact  crates/gc-mod05/src/lib.rs. Mark is on the mark phase, Update on
--                `update_references`, Instance makes the collector one of the interface.
--   SemiSpace    crates/gc-mod06/src/lib.rs. Copy is on `copy_object`.
--   Generational crates/gc-mod07/src/lib.rs. Barrier is on `write_field`, Promote on `promote`.
--   Collector    crates/gc-core/src/collector.rs: the trait as a record of operations.
--   Verify       crates/gc-core/src/verify.rs, over any collector: Reports is what is reported, Paths
--                the search for a path, Queue the loop over the heap, Whole the rest. Ends is on
--                the end of the loop.
--   Mutator      crates/gc-core/src/mutator.rs, over any collector. Depths is on the stacks of the
--                two sides, Steps on each call, Lockstep on runs of calls.
--   Tests        runs at concrete inputs.
--
-- State is passed explicitly: an operation takes the state and returns the new one. A panic, which is
-- a failed assertion, an index out of range, a todo!() or an overflow of a checked operation, is the
-- value `panic` of `Exec`. Arithmetic is that of a debug build, in which overflow panics. A `usize`
-- is 64 bits wide. A store of a handle or of a size keeps the wrap-around of the machine word.
--
-- Loops and fuel. `walk` takes one step per block and every block has at least one byte, so the
-- length of the region and one is fuel enough. `Model.reachable` has fuel for the roots and all
-- slots; it returns an Option whose `none` would be lack of fuel. The work list of `release` loses
-- one item in each round and gains the children of a freed object, which are none since `free` has
-- set the slot count to zero; its length is the fuel. `doomed` and `whiten` have fuel for the
-- region, of which each round takes a block. A loop that ran out of fuel would be a `panic`, so
-- that no theorem about a result can rest on it.
--
-- `mark_from` has fuel for the roots and all bytes of the heap, `release` of the cycle collector for
-- the pending items and all bytes in use, and its scans for all bytes: an object has fewer slots than
-- bytes. The loop of `verify` has fuel for its queue and as many slots as bytes for each address.
--
-- Not modelled: text (Debug and Display, messages of panics, names), clocks (a pause is an argument),
-- the harness and the workloads, which only drive the rest and print. What the source leaves as a
-- todo!() is a definition that panics; no theorem is about what it should do.
mod Base
pub mod Heap
pub mod Space
pub mod Model
pub mod Roots
pub mod Stats
pub mod Allocator
pub mod RefCount
pub mod MarkSweep
pub mod Incremental
pub mod CycleCollector
pub mod Marking
pub mod MarkCompact
pub mod SemiSpace
pub mod Generational
pub mod Collector
pub mod Verify
pub mod Mutator
mod Tests
