-- ===== src/MarkCompact/Mark.antt =====
-- crates/gc-mod05/src/lib.rs: the mark phase.
use gc_united.Base.{
  ◌+◌, ◌≤◌, ◌<◌, ◌≡◌, refl, ◌↔◌, true, false, List, length, has, count, ok, u64_values,
}
use gc_united.Heap.{Handle, write}
use gc_united.Roots
use gc_united.Marking.Graph.{IsGraph, mark_all, marked_at}
use gc_united.Marking.Reach.{Reach, mark_from-Reach}
use gc_united.MarkCompact.{MarkCompact, mark_from_roots}

-- `gc` after the objects `hs` were marked and counted.
abbrev pub marked : MarkCompact → List Handle → MarkCompact
marked gc hs = record gc {
  heap = write gc.heap (mark_all gc.heap.bytes hs);
  stats = record gc.stats { objects_marked = gc.stats.objects_marked + length hs };
}

-- The heap is a graph of blocks in which nothing is marked, every root that is not null names a
-- block, and the counter has room. Then `mark_from_roots` ends, and marks and counts each object that
-- references lead to from the roots, once, and no other; nothing but mark bits and that counter
-- changes.
pub mark_from_roots-Reach :
    (gc : MarkCompact) (bs : List Handle)
    → IsGraph gc.heap bs gc.top
    → ((h : Handle) → has h bs ≡ true → marked_at gc.heap.bytes h ≡ false)
    → ((h : Handle) → has h (Roots.handles gc.roots) ≡ true → has h bs ≡ true)
    → gc.stats.objects_marked + length bs < u64_values
    → (hs : List Handle) × (mark_from_roots gc ≡ ok (marked gc hs))
      × ((a : Handle) → (has a hs ≡ true) ↔ Reach gc.heap.bytes (Roots.handles gc.roots) a)
      × ((a : Handle) → count a hs ≤ 1)
      × ((a : Handle) → has a bs ≡ true → marked_at (mark_all gc.heap.bytes hs) a ≡ has a hs)
unfolding mark_from_roots
mark_from_roots-Reach gc bs g clear rooted counted =
    let (hs, e, reached, once, marks) =
      mark_from-Reach g clear (Roots.handles gc.roots) rooted gc.stats.objects_marked counted in
    (hs, rw e refl, reached, once, marks)
