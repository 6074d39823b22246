-- ===== src/RefCount/Last.antt =====
-- crates/gc-mod02/src/lib.rs: `release` of the last reference to an object.
use gc_united.Base.{
  ◌+◌, ◌<◌, ◌≡◌, ◌≢◌, refl, ◌∙◌, inl, ap, arith, true, false, List, [], has, ok, u64_values,
  sub_checked,
}
use gc_united.Heap
use gc_united.Heap.{
  Memory, Heap, Handle, header_size, is_null, off_rc, off_flags, off_size, write, put32, has_bit,
  flag_free,
}
use gc_united.Heap.Words.{SameOutside, put32-SameOutside, IsBytes-put32, frame32}
use gc_united.Heap.Views.{size_at, rc_at, rc-ok, set_rc-ok, size-ok, nrefs-ok}
use gc_united.Heap.Chain.{free_at}
use gc_united.Space.{FreeListSpace}
use gc_united.Space.Invariant.{IsSpace}
use gc_united.Space.Alloc.{inside_of_has}
use gc_united.Space.Free.{IsReleased, free-IsReleased}
use gc_united.Space.Poke.{over, IsSpace-over}
use gc_united.Space.Apart.{header-apart}
use gc_united.Stats.Counts.{freed_stats, count_freed-ok}
use gc_united.RefCount.{RefCount, release, drop_one, free_object}
use gc_united.RefCount.Counts.{header_inside, ne_null, release_one}

-- `gc'` is `gc` with the object `h` given back to the space, and nothing else done: every other
-- block keeps its bytes, its count among them, and nothing is pending.
pub record IsDropped (gc gc' : RefCount) (bs : List Handle) (h : Handle) : Type 0 where
  pub space : IsSpace gc'.space bs
  pub freed : free_at gc'.space.heap.bytes h ≡ true
  pub zeroed : rc_at gc'.space.heap.bytes h ≡ 0
  pub same :
      SameOutside h (h + size_at gc.space.heap.bytes h) gc.space.heap.bytes gc'.space.heap.bytes
  pub counts :
      (c : Handle)
      → has c bs ≡ true
      → c ≢ h
      → rc_at gc'.space.heap.bytes c ≡ rc_at gc.space.heap.bytes c
  pub used : gc'.space.used + size_at gc.space.heap.bytes h ≡ gc.space.used
  pub stats : gc'.stats ≡ freed_stats gc.stats (size_at gc.space.heap.bytes h)
  pub pending : gc'.pending ≡ []

module _ (gc : RefCount) (bs : List Handle) (h : Handle) (is : IsSpace gc.space bs)
    (member : has h bs ≡ true) (live : free_at gc.space.heap.bytes h ≡ false)
    (last : rc_at gc.space.heap.bytes h ≡ 1) (idle : gc.pending ≡ [])
    (objects_fit : gc.stats.objects_freed + 1 < u64_values)
    (bytes_fit : gc.stats.bytes_freed + size_at gc.space.heap.bytes h < u64_values) where
  -- The memory after the count has gone to zero.
  lowered : Memory
  lowered = put32 gc.space.heap.bytes (h + off_rc) 0

  -- What remains of a run is the reading of the children, of which there are none.
  dropped :
      (s' : FreeListSpace)
      → IsReleased (over gc.space lowered) s' bs h
      → IsDropped gc
          (record gc {
            space = s';
            stats = freed_stats gc.stats (size_at gc.space.heap.bytes h);
            pending = [];
          })
          bs
          h
  unfolding lowered
  dropped s' rel =
      let m = gc.space.heap.bytes in
      let n = size_at m h in
      let (aligned, inside, block) = inside_of_has is h member in
      let big = block.big in
      let change =
        put32-SameOutside m (h + off_rc) 0 (h + off_rc) (h + off_rc + 4) (omega arith)
          (omega arith) in
      let sized : size_at lowered h ≡ n = frame32 change (h + off_size) (inl (omega arith)) in
      let same : SameOutside h (h + n) m s'.heap.bytes =
        λ x o. rel.block.outside x (rw sized o) ∙ change x (ground arith) in
      record {
        space = rel.space;
        freed = rel.block.freed;
        zeroed = rel.block.counted;
        same = same;
        counts = λ c mem ne.
            frame32 same (c + off_rc) (ground (arith, header-apart is h c member mem ne));
        used = omega (arith, rel.used, sized);
        stats = refl;
        pending = refl;
      }

  drop_last :
      (gc' : RefCount) × (drop_one (record gc { pending = [] }) h ≡ ok gc') × IsDropped gc gc' bs h
  unfolding drop_one free_object lowered Heap.children sub_checked put32 Heap.word32 has_bit
  drop_last =
      let hp = gc.space.heap in
      let m = hp.bytes in
      let n = size_at m h in
      let room = header_inside gc bs h is member in
      let (aligned, inside, block) = inside_of_has is h member in
      let big = block.big in
      let change =
        put32-SameOutside m (h + off_rc) 0 (h + off_rc) (h + off_rc + 4) (omega arith)
          (omega arith) in
      let sized : size_at lowered h ≡ n = frame32 change (h + off_size) (inl (omega arith)) in
      let flagged : lowered (h + off_flags) ≡ m (h + off_flags) =
        change (h + off_flags) (inl (omega arith)) in
      let still = ap (λ f. has_bit f flag_free) flagged ∙ live in
      let is' =
        IsSpace-over h is member change (IsBytes-put32 m (h + off_rc) 0 is.bytes) (omega arith)
          (omega arith) in
      let (s', runs, rel) = free-IsReleased (over gc.space lowered) bs h is' member still in
      let (aligned', inside', block') = inside_of_has rel.space h member in
      let big' = block'.big in
      let within' = rel.space.within in
      (
        record gc { space = s'; stats = freed_stats gc.stats n; pending = [] },
        rw (
          rc-ok hp h room,
          last,
          set_rc-ok hp h room 0,
          size-ok (write hp lowered) h room,
          sized,
          runs,
          count_freed-ok gc.stats n objects_fit bytes_fit,
          nrefs-ok s'.heap h (omega arith),
          rel.block.slots,
        ),
        dropped s' rel,
      )

  -- With nothing pending and room in the counters, `release` of the last reference to a live object
  -- of a well-formed space gives its memory back, once, and does nothing else: the objects it refers
  -- to keep their counts.
  pub release-IsDropped : (gc' : RefCount) × (release gc h ≡ ok gc') × IsDropped gc gc' bs h
  release-IsDropped =
      let (gc', runs, drop) = drop_last in
      (gc', release_one gc gc' h idle (ne_null gc bs h is member) runs drop.pending, drop)
