-- ===== src/MarkSweep/Sweep.antt =====
-- crates/gc-mod04/src/lib.rs: `sweep` as a whole.
use gc_united.Base.{
  ◌+◌, ◌<◌, ◌≡◌, refl, ap, ◌∙◌, arith, true, false, List, has, length, ok, u64_values,
}
use gc_united.Heap.{Handle, off_flags, off_size, has_bit, flag_free}
use gc_united.Heap.Words.{SameOn, word32-same}
use gc_united.Heap.Views.{size_at}
use gc_united.Heap.Chain.{free_at}
use gc_united.Space.Invariant.{IsSpace}
use gc_united.Space.Alloc.{inside_of_has}
use gc_united.Space.Holes.{IsOrdered}
use gc_united.Space.Gaps.{Gapped}
use gc_united.Space.Coalesce.{coalesce-IsSpace}
use gc_united.MarkSweep.{MarkSweep, sweep}
use gc_united.MarkSweep.Doomed.{marked_at, dead_at, dead, dead_bytes}
use gc_united.MarkSweep.Reclaim.{reclaim-IsReclaimed}

-- `gc'` is `gc` after a sweep: a well-formed space over the blocks `bs'`, in which every marked
-- object of `bs` is still a block with all its bytes, no two blocks of the free list are side by side,
-- and the objects that were not marked are off the books.
pub record IsSwept (gc gc' : MarkSweep) (bs bs' : List Handle) : Type 0 where
  pub space : IsSpace gc'.space bs'
  pub kept :
      (b : Handle)
      → has b bs ≡ true
      → free_at gc.space.heap.bytes b ≡ false
      → marked_at gc.space.heap.bytes b ≡ true
      → (has b bs' ≡ true)
        × SameOn b (b + size_at gc.space.heap.bytes b) gc.space.heap.bytes gc'.space.heap.bytes
  pub gaps : Gapped gc'.space.heap.bytes 0 gc'.space.free
  pub used : gc'.space.used + dead_bytes gc.space.heap.bytes bs ≡ gc.space.used
  pub objects :
      gc'.stats.objects_freed ≡ gc.stats.objects_freed + length (dead gc.space.heap.bytes bs)
  pub bytes : gc'.stats.bytes_freed ≡ gc.stats.bytes_freed + dead_bytes gc.space.heap.bytes bs

-- Over a well-formed space whose flag `sorted` is true to its list, and with counters that have room
-- for what is freed, `sweep` returns. The space is well formed afterwards, every marked object is
-- still there with all its bytes, no two blocks of the free list are side by side, and `used` and the
-- counters have moved by exactly the objects that were not marked.
pub sweep-IsSwept :
    (gc : MarkSweep) (bs : List Handle)
    → IsSpace gc.space bs
    → IsOrdered gc.space
    → gc.stats.objects_freed + length (dead gc.space.heap.bytes bs) < u64_values
    → gc.stats.bytes_freed + dead_bytes gc.space.heap.bytes bs < u64_values
    → (gc' : MarkSweep) × (bs' : List Handle) × (sweep gc ≡ ok gc') × IsSwept gc gc' bs bs'
unfolding sweep
sweep-IsSwept gc bs is ordered few small =
    let m = gc.space.heap.bytes in
    let (gc1, reclaims, done) = reclaim-IsReclaimed gc bs is few small in
    let m1 = gc1.space.heap.bytes in
    let (s', merges, bs', coalesces, is', keeps, used, gaps) =
      coalesce-IsSpace gc1.space bs done.space (done.ordered ordered) in
    (
      record gc1 { space = s' },
      bs',
      rw (reclaims, coalesces) refl,
      record {
        space = is';
        kept = λ b mem live marked.
            let (_, _, block) = inside_of_has is b mem in
            let big = block.big in
            let alive : dead_at m b ≡ false = rw (live, marked) refl in
            let same = done.kept b mem alive in
            let live1 : free_at m1 b ≡ false =
              ap (λ f. has_bit f flag_free) (same (b + off_flags) (omega arith) (omega arith))
              ∙ live in
            let sized : size_at m1 b ≡ size_at m b =
              word32-same m m1 (b + off_size) (λ x lo hi. same x (omega arith) (omega arith)) in
            let (mem', _, _, same') = keeps b mem live1 in
            (mem', λ x lo hi. same' x lo (omega (arith, sized)) ∙ same x lo hi);
        gaps = gaps;
        used = omega (arith, used, done.used);
        objects = done.objects;
        bytes = done.bytes;
      },
    )
