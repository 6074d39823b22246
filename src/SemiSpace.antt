-- ===== src/SemiSpace.antt =====
-- crates/gc-mod06/src/lib.rs: copying between two half-spaces.
pub mod Copy
use gc_united.Base.{
  ℕ, ◌-◌, ◌/◌, Bool, false, if◌then◌else◌, ltb, leb, ◌==◌, List, Exec, ok, panic, assert, ◌>>=◌,
  ◌>>◌, add32, mul32, add64, sub_checked,
}
use gc_united.Heap
use gc_united.Heap.{Heap, Handle, align_up, size_for}
use gc_united.Roots
use gc_united.Roots.{Roots}
use gc_united.Stats.{
  GcStats, fresh, account as account_stats, count_major, GcResult, allocated, out_of_memory,
}

-- `empty_collections` is the field `collections_with_no_survivors`.
pub record SemiSpace : Type 0 where
  pub heap : Heap
  pub roots : Roots
  pub stats : GcStats
  pub half : ℕ
  pub current : ℕ
  pub idle : ℕ
  pub free : ℕ
  pub scan : ℕ
  pub live_objects : ℕ
  pub empty_collections : ℕ

unfoldable pub new : ℕ → Exec SemiSpace
new capacity = do
  hp ← Heap.new capacity
  half ← align_up (hp.len / 2)
  both ← mul32 half 2
  assert (leb both hp.len)
  ok (record {
    heap = hp;
    roots = Roots.new;
    stats = fresh;
    half = half;
    current = 0;
    idle = half;
    free = 0;
    scan = 0;
    live_objects = 0;
    empty_collections = 0;
  })

unfoldable pub limit : SemiSpace → Exec ℕ
limit gc = add32 gc.current gc.half

unfoldable pub in_current_space : SemiSpace → Handle → Exec Bool
in_current_space gc h =
    if leb gc.current h then (do e ← add32 gc.current gc.half; ok (ltb h e)) else ok false

unfoldable pub objects : SemiSpace → Exec (List Handle)
objects gc = Heap.walk gc.heap gc.current gc.free

-- The part of `copy_object` that moves the object, and leaves a note in the original.
unfoldable pub move_object : SemiSpace → Handle → Exec (SemiSpace × Handle)
unfolding limit
move_object gc h = do
  n ← Heap.size gc.heap h
  let dest = gc.free
  end ← add32 dest n
  lim ← limit gc
  assert (leb end lim)
  hp ← Heap.relocate gc.heap h dest
  free ← add32 gc.free n
  copied ← add64 gc.stats.objects_copied 1
  hp ← Heap.set_forward hp h dest
  let st = record gc.stats { objects_copied = copied }
  ok (record gc { heap = hp; free = free; stats = st }, dest)

unfoldable pub copy_object : SemiSpace → Handle → Exec (SemiSpace × Handle)
unfolding in_current_space move_object
copy_object gc h = do here ← in_current_space gc h; if here then ok (gc, h) else move_object gc h

-- `todo!()`
unfoldable pub scan_to_space : SemiSpace → Exec SemiSpace
scan_to_space gc = panic

-- `used_bytes`: the free pointer itself.
unfoldable pub used_bytes : SemiSpace → ℕ
used_bytes gc = gc.free

unfoldable pub account : SemiSpace → Handle → Exec (SemiSpace × GcResult)
account gc h = do
  live ← add64 gc.live_objects 1
  used ← sub_checked gc.free gc.current
  stats ← account_stats gc.stats gc.heap h used
  ok (record gc { live_objects = live; stats = stats }, allocated h)

-- The halves change roles, and the roots are copied into the one now in use.
unfoldable pub flip : SemiSpace → Exec SemiSpace
unfolding copy_object
flip gc = do
  let swapped = record gc {
    current = gc.idle;
    idle = gc.current;
    free = gc.idle;
    scan = gc.idle;
    roots = Roots.new;
  }
  (gc', roots) ← Roots.for_each_mut copy_object swapped gc.roots
  ok (record gc' { roots = roots })

-- The counters once the copy is complete, when `before` bytes and `objects` objects stood and
-- `copied` had been copied ahead of it.
unfoldable pub settle : SemiSpace → ℕ → ℕ → ℕ → ℕ → Exec SemiSpace
unfolding used_bytes
settle gc before objects copied elapsed = do
  survivors ← sub_checked gc.stats.objects_copied copied
  dead ← sub_checked objects survivors
  freed ← add64 gc.stats.objects_freed dead
  bytes ← add64 gc.stats.bytes_freed (before - used_bytes gc)
  empty ← (if used_bytes gc == 0 then add64 gc.empty_collections 1 else ok gc.empty_collections)
  stats ← count_major (record gc.stats { objects_freed = freed; bytes_freed = bytes }) elapsed
  ok (record gc { live_objects = survivors; empty_collections = empty; stats = stats })

-- `elapsed` is what the clock says of the pause.
unfoldable pub collect : SemiSpace → ℕ → Exec SemiSpace
unfolding used_bytes flip scan_to_space settle
collect gc elapsed = do
  let before = used_bytes gc
  gc' ← flip gc
  gc' ← scan_to_space gc'
  settle gc' before gc.live_objects gc.stats.objects_copied elapsed

unfoldable pub refused : SemiSpace → ℕ → Exec (SemiSpace × GcResult)
unfolding used_bytes
refused gc need = do
  failures ← add64 gc.stats.allocation_failures 1
  let st = record gc.stats { allocation_failures = failures }
  ok (record gc { stats = st }, out_of_memory need (used_bytes gc) gc.half)

-- The part of `alloc` that follows the collection.
unfoldable pub bump : SemiSpace → ℕ → ℕ → ℕ → Exec (SemiSpace × GcResult)
unfolding limit account refused
bump gc need refs ndata = do
  end ← add32 gc.free need
  lim ← limit gc
  if ltb lim end then refused gc need else (do
    let at = gc.free
    hp ← Heap.emplace gc.heap at refs ndata
    account (record gc { heap = hp; free = end }) at)

unfoldable pub alloc : SemiSpace → ℕ → ℕ → ℕ → Exec (SemiSpace × GcResult)
unfolding limit collect bump
alloc gc refs ndata elapsed = do
  need ← size_for refs ndata
  end ← add32 gc.free need
  lim ← limit gc
  gc ← (if ltb lim end then collect gc elapsed else ok gc)
  bump gc need refs ndata

unfoldable pub write_field : SemiSpace → Handle → ℕ → Handle → Exec SemiSpace
write_field gc obj i val = do hp ← Heap.set_field gc.heap obj i val; ok (record gc { heap = hp })
