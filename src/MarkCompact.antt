-- ===== src/MarkCompact.antt =====
-- crates/gc-mod05/src/lib.rs: mark and compact.
pub mod Mark
pub mod Instance
pub mod Update
use gc_united.Base.{
  ℕ, zero, suc, ◌-◌, ◌*◌, ◌/◌, ◌^◌, min, max, Bool, true, false, not, ◌&&◌, if◌then◌else◌, ltb, leb,
  ◌==◌, List, Exec, ok, panic, ◌>>=◌, add32, add64,
}
use gc_united.Heap
use gc_united.Heap.{Heap, Handle, is_null, size_for}
use gc_united.Marking.{mark_from}
use gc_united.Roots
use gc_united.Roots.{Roots}
use gc_united.Stats.{GcStats, fresh, account, count_major, GcResult, allocated, out_of_memory}

abbrev pub min_threshold : ℕ
min_threshold = 64 * 1024

abbrev pub thrash_limit : ℕ
thrash_limit = 4

-- The worklist is empty between two operations and is local to `mark_from_roots`.
pub record MarkCompact : Type 0 where
  pub heap : Heap
  pub roots : Roots
  pub stats : GcStats
  pub top : ℕ
  pub threshold : ℕ
  pub thrashing : ℕ

unfoldable pub new : ℕ → Exec MarkCompact
new capacity = do
  hp ← Heap.new capacity
  ok (record {
    heap = hp;
    roots = Roots.new;
    stats = fresh;
    top = 0;
    threshold = min min_threshold (capacity / 2);
    thrashing = 0;
  })

unfoldable pub is_marked : MarkCompact → Handle → Exec Bool
is_marked gc h = Heap.is_marked gc.heap h

unfoldable pub forwarding_address : MarkCompact → Handle → Exec Handle
forwarding_address gc h = Heap.forward gc.heap h

unfoldable pub blocks : MarkCompact → Exec (List Handle)
blocks gc = Heap.walk gc.heap 0 gc.top

unfoldable pub mark_from_roots : MarkCompact → Exec MarkCompact
mark_from_roots gc = do
  (hp, marks) ← mark_from gc.heap gc.stats.objects_marked (Roots.handles gc.roots)
  ok (record gc { heap = hp; stats = record gc.stats { objects_marked = marks } })

-- `todo!()`
unfoldable pub compute_forwarding : MarkCompact → Exec (MarkCompact × ℕ)
compute_forwarding gc = panic

-- Slot `i` of `h` takes the forwarding address of what it names.
unfoldable pub update_slot : Heap → Handle → ℕ → Exec Heap
update_slot hp h i = do
  child ← Heap.field hp h i
  if is_null child
      then ok hp
      else (do moved_to ← Heap.forward hp child; Heap.set_field hp h i moved_to)

-- The slots of `h` from `i` on, `n` of them.
unfoldable pub update_slots : Heap → Handle → ℕ → ℕ → Exec Heap
unfolding update_slot
update_slots hp h i zero = ok hp
update_slots hp h i (suc n) = do hp' ← update_slot hp h i; update_slots hp' h (suc i) n

-- What the loop of `update_references` does with one object.
unfoldable pub update_object : Heap → Handle → Exec Heap
unfolding update_slots
update_object hp h = do
  marked ← Heap.is_marked hp h
  if not marked then ok hp else (do
    target ← Heap.forward hp h
    if target == h then ok hp else (do n ← Heap.nrefs hp h; update_slots hp h 0 n))

-- The loop of `update_references`. A round advances by the size of a block.
unfoldable pub update_from : ℕ → Heap → ℕ → ℕ → Exec Heap
unfolding update_object
update_from zero hp top at = panic
update_from (suc fuel) hp top at = elim (ltb at top) [
  | false ↦ ok hp
  | true ↦ (do
    n ← Heap.size hp at
    next ← add32 at n
    hp' ← update_object hp at
    update_from fuel hp' top next)
]

-- The closure of `update_references`.
unfoldable pub forwarded_root : Heap → Handle → Exec (Heap × Handle)
forwarded_root hp h = do to ← Heap.forward hp h; ok (hp, to)

unfoldable pub update_references : MarkCompact → Exec MarkCompact
unfolding update_from forwarded_root
update_references gc = do
  hp ← update_from (suc gc.top) gc.heap gc.top 0
  (hp, roots) ← Roots.for_each_mut forwarded_root hp gc.roots
  ok (record gc { heap = hp; roots = roots })

-- `todo!()`
unfoldable pub move_objects : MarkCompact → Exec MarkCompact
move_objects gc = panic

-- What `collect` sets once the survivors have moved, when `before` was the top ahead of it.
unfoldable pub retune : MarkCompact → ℕ → Exec MarkCompact
retune gc before = do
  let capacity = gc.heap.len
  let doubled = min (gc.top * 2) (2 ^ 32 - 1)
  let threshold = min (max doubled min_threshold) capacity
  let reclaimed = before - gc.top
  thrashing ←
      (if ltb (capacity / 16 * 15) gc.top && ltb reclaimed (capacity / 32)
        then add32 gc.thrashing 1
        else ok 0)
  ok (record gc { threshold = threshold; thrashing = thrashing })

-- `elapsed` is what the clock says of the pause.
unfoldable pub collect : MarkCompact → ℕ → Exec MarkCompact
unfolding mark_from_roots compute_forwarding update_references move_objects retune
collect gc elapsed = do
  let before = gc.top
  gc ← mark_from_roots gc
  (gc, after) ← compute_forwarding gc
  gc ← update_references gc
  gc ← move_objects gc
  gc ← retune (record gc { top = after }) before
  stats ← count_major gc.stats elapsed
  ok (record gc { stats = stats })

unfoldable pub refused : MarkCompact → ℕ → Exec (MarkCompact × GcResult)
refused gc need = do
  failures ← add64 gc.stats.allocation_failures 1
  let st = record gc.stats { allocation_failures = failures }
  ok (record gc { stats = st }, out_of_memory need gc.top gc.heap.len)

-- The part of `alloc` that follows the collections.
unfoldable pub bump : MarkCompact → ℕ → ℕ → ℕ → Exec (MarkCompact × GcResult)
unfolding refused
bump gc need refs ndata = do
  end ← add32 gc.top need
  if ltb gc.heap.len end then refused gc need else (do
    let at = gc.top
    hp ← Heap.emplace gc.heap at refs ndata
    stats ← account gc.stats hp at end
    ok (record gc { heap = hp; top = end; stats = stats }, allocated at))

-- `pauses` are the clock's answers for the two collections that a call may run.
unfoldable pub alloc : MarkCompact → ℕ → ℕ → ℕ × ℕ → Exec (MarkCompact × GcResult)
unfolding collect bump
alloc gc refs ndata pauses = do
  need ← size_for refs ndata
  let worth_collecting = ltb gc.thrashing thrash_limit
  gc ← (if worth_collecting && leb gc.threshold gc.top then collect gc pauses.0 else ok gc)
  end ← add32 gc.top need
  gc ← (if ltb gc.heap.len end && worth_collecting then collect gc pauses.1 else ok gc)
  bump gc need refs ndata

unfoldable pub write_field : MarkCompact → Handle → ℕ → Handle → Exec MarkCompact
write_field gc obj i val = do hp ← Heap.set_field gc.heap obj i val; ok (record gc { heap = hp })
