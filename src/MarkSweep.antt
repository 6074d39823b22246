-- ===== src/MarkSweep.antt =====
-- crates/gc-mod04/src/lib.rs: mark and sweep.
pub mod Doomed
pub mod Reclaim
pub mod Sweep
use gc_united.Base.{
  ℕ, zero, suc, ◌+◌, ◌-◌, ◌*◌, ◌/◌, ◌^◌, min, max, Bool, true, false, not, ◌&&◌, ◌||◌,
  if◌then◌else◌, ltb, leb, List, [], ◌∷◌, Option, none, some, Exec, ok, panic, ◌>>=◌, add32, add64,
}
use gc_united.Heap
use gc_united.Heap.{Heap, Handle, flag_mark, is_null, size_for}
use gc_united.Space
use gc_united.Space.{FreeListSpace}
use gc_united.Roots
use gc_united.Roots.{Roots}
use gc_united.Stats.{
  GcStats, fresh, account, count_freed, count_major, GcResult, allocated, out_of_memory,
}

abbrev pub min_threshold : ℕ
min_threshold = 64 * 1024

abbrev pub thrash_limit : ℕ
thrash_limit = 4

pub record MarkSweep : Type 0 where
  pub space : FreeListSpace
  pub roots : Roots
  pub stats : GcStats
  pub worklist : List Handle
  pub threshold : ℕ
  pub thrashing : ℕ

unfoldable pub new : ℕ → Exec MarkSweep
new capacity = do
  space ← Space.new capacity
  ok (record {
    space = space;
    roots = Roots.new;
    stats = fresh;
    worklist = [];
    threshold = min min_threshold (capacity / 2);
    thrashing = 0;
  })

unfoldable pub is_freed : MarkSweep → Handle → Exec Bool
is_freed gc h = Space.is_free gc.space h

unfoldable pub is_marked : MarkSweep → Handle → Exec Bool
is_marked gc h = Heap.is_marked gc.space.heap h

-- The handles of the shadow stack that are not null.
unfoldable pub root_set : MarkSweep → List Handle
root_set gc = Roots.not_null gc.roots.stack

-- The loop that marks is a `todo!()`.
unfoldable pub mark_from_roots : MarkSweep → Exec MarkSweep
mark_from_roots gc = panic

-- The first loop of `sweep`: the blocks from `at` on that are neither free nor marked. A round
-- advances by the size of a block.
unfoldable pub doomed : ℕ → FreeListSpace → ℕ → Exec (List Handle)
doomed zero s at = panic
doomed (suc fuel) s at = elim (ltb at s.bump) [
  | false ↦ ok []
  | true ↦ (do
    n ← Heap.size s.heap at
    next ← add32 at n
    freed ← Space.is_free s at
    marked ← (if freed then ok true else Heap.is_marked s.heap at)
    rest ← doomed fuel s next
    ok (if marked then rest else at ∷ rest))
]

-- The second loop of `sweep`.
unfoldable pub free_all : MarkSweep → List Handle → Exec MarkSweep
free_all gc [] = ok gc
free_all gc (h ∷ hs) = do
  n ← Heap.size gc.space.heap h
  space ← Space.free gc.space h
  stats ← count_freed gc.stats n
  free_all (record gc { space = space; stats = stats }) hs

-- The two loops of `sweep`.
unfoldable pub reclaim : MarkSweep → Exec MarkSweep
unfolding doomed free_all
reclaim gc = do hs ← doomed (suc gc.space.bump) gc.space 0; free_all gc hs

unfoldable pub sweep : MarkSweep → Exec MarkSweep
unfolding reclaim
sweep gc = do
  gc ← reclaim gc
  (space, merges) ← Space.coalesce gc.space
  ok (record gc { space = space })

-- What `collect` sets once the sweep is done, when `before` bytes were in use ahead of it.
unfoldable pub retune : MarkSweep → ℕ → Exec MarkSweep
retune gc before = do
  let live = gc.space.used
  let capacity = gc.space.heap.len
  let doubled = min (live * 2) (2 ^ 32 - 1)
  let threshold = min (max doubled min_threshold) capacity
  let reclaimed = before - live
  thrashing ←
      (if ltb (capacity / 16 * 15) live && ltb reclaimed (capacity / 32)
        then add32 gc.thrashing 1
        else ok 0)
  ok (record gc { threshold = threshold; thrashing = thrashing })

-- `elapsed` is what the clock says of the pause.
unfoldable pub collect : MarkSweep → ℕ → Exec MarkSweep
unfolding mark_from_roots sweep retune
collect gc elapsed = do
  let before = gc.space.used
  gc ← mark_from_roots gc
  gc ← sweep gc
  gc ← retune gc before
  stats ← count_major gc.stats elapsed
  ok (record gc { stats = stats })

-- The bookkeeping behind a successful allocation.
unfoldable pub granted : MarkSweep → Handle → Exec (MarkSweep × GcResult)
granted gc h = do
  stats ← account gc.stats gc.space.heap h gc.space.used
  ok (record gc { stats = stats }, allocated h)

unfoldable pub refused : MarkSweep → ℕ → ℕ → Exec (MarkSweep × GcResult)
refused gc refs ndata = do
  failures ← add64 gc.stats.allocation_failures 1
  n ← size_for refs ndata
  let st = record gc.stats { allocation_failures = failures }
  ok (record gc { stats = st }, out_of_memory n gc.space.used gc.space.heap.len)

-- `pauses` are the clock's answers for the two collections that a call may run.
unfoldable pub alloc : MarkSweep → ℕ → ℕ → ℕ × ℕ → Exec (MarkSweep × GcResult)
unfolding collect granted refused
alloc gc refs ndata pauses = do
  let worth_collecting = ltb gc.thrashing thrash_limit
  gc ← (if worth_collecting && leb gc.threshold gc.space.used then collect gc pauses.0 else ok gc)
  (space, found) ← Space.alloc gc.space refs ndata
  elim found [
    | some h ↦ granted (record gc { space = space }) h
    | none ↦ elim worth_collecting [
      | false ↦ refused (record gc { space = space }) refs ndata
      | true ↦ (do
        gc ← collect (record gc { space = space }) pauses.1
        (space, found) ← Space.alloc gc.space refs ndata
        elim found [
          | some h ↦ granted (record gc { space = space }) h
          | none ↦ refused (record gc { space = space }) refs ndata
        ])
    ]
  ]

unfoldable pub write_field : MarkSweep → Handle → ℕ → Handle → Exec MarkSweep
write_field gc obj i val = do
  hp ← Heap.set_field gc.space.heap obj i val
  ok (record gc { space = record gc.space { heap = hp } })
