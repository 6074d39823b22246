-- ===== src/RefCount.antt =====
-- crates/gc-mod02/src/lib.rs: reference counting.
pub mod Counts
pub mod Last
pub mod Store
pub mod Write
use gc_united.Base.{
  ℕ, zero, suc, ◌+◌, Bool, true, false, if◌then◌else◌, ltb, ◌==◌, List, [], ◌∷◌, ◌++◌, Option, none,
  some, Exec, ok, panic, assert, ◌>>=◌, ◌>>◌, add32, add64, sub_checked, length, unsnoc,
}
use gc_united.Heap
use gc_united.Heap.{Heap, Handle, is_null, size_for}
use gc_united.Space
use gc_united.Space.{FreeListSpace}
use gc_united.Roots
use gc_united.Roots.{Roots}
use gc_united.Stats.{
  GcStats, fresh, account, count_freed, record_pause, GcResult, allocated, out_of_memory,
}

pub record RefCount : Type 0 where
  pub space : FreeListSpace
  pub roots : Roots
  pub stats : GcStats
  pub pending : List Handle

unfoldable pub new : ℕ → Exec RefCount
new capacity = do
  space ← Space.new capacity
  ok (record { space = space; roots = Roots.new; stats = fresh; pending = [] })

abbrev pub with_heap : RefCount → Heap → RefCount
with_heap gc hp = record gc { space = record gc.space { heap = hp } }

unfoldable pub rc_of : RefCount → Handle → Exec ℕ
rc_of gc h = Heap.rc gc.space.heap h

unfoldable pub is_freed : RefCount → Handle → Exec Bool
is_freed gc h = Space.is_free gc.space h

unfoldable pub retain : RefCount → Handle → Exec RefCount
retain gc h = if is_null h then ok gc else (do
  n ← Heap.rc gc.space.heap h
  n' ← add32 n 1
  hp ← Heap.set_rc gc.space.heap h n'
  ok (with_heap gc hp))

unfoldable pub free_object : RefCount → Handle → Exec RefCount
free_object gc h = do
  n ← Heap.size gc.space.heap h
  space ← Space.free gc.space h
  stats ← count_freed gc.stats n
  ok (record gc { space = space; stats = stats })

-- One round of `release`: one reference less to `obj`. The children are read after the object is
-- freed, as in the source.
unfoldable pub drop_one : RefCount → Handle → Exec RefCount
unfolding free_object
drop_one gc obj = do
  n ← Heap.rc gc.space.heap obj
  assert (ltb 0 n)
  n' ← sub_checked n 1
  hp ← Heap.set_rc gc.space.heap obj n'
  if n == 1
      then (do
        gc' ← free_object (with_heap gc hp) obj
        children ← Heap.children gc'.space.heap obj
        ok (record gc' { pending = gc'.pending ++ children }))
      else ok (with_heap gc hp)

-- The loop of `release`, which pops from the end. Each round takes one item off `pending`, so the
-- length of `pending` is fuel enough.
unfoldable pub drain : ℕ → RefCount → Exec RefCount
unfolding unsnoc drop_one
drain zero gc = elim gc.pending [ [] ↦ ok gc | _ ∷ _ ↦ panic ]
drain (suc fuel) gc = elim (unsnoc gc.pending) [
  | none ↦ ok gc
  | some (rest, obj) ↦ (do gc' ← drop_one (record gc { pending = rest }) obj; drain fuel gc')
]

unfoldable pub release : RefCount → Handle → Exec RefCount
unfolding drain
release gc h =
    if is_null h
    then ok gc
    else drain (suc (length gc.pending)) (record gc { pending = gc.pending ++ h ∷ [] })

-- The bookkeeping behind a successful allocation.
unfoldable pub granted : RefCount → Handle → Exec (RefCount × GcResult)
granted gc h = do
  stats ← account gc.stats gc.space.heap h gc.space.used
  ok (record gc { stats = stats }, allocated h)

unfoldable pub refused : RefCount → ℕ → ℕ → Exec (RefCount × GcResult)
refused gc refs ndata = do
  failures ← add64 gc.stats.allocation_failures 1
  n ← size_for refs ndata
  let st = record gc.stats { allocation_failures = failures }
  ok (record gc { stats = st }, out_of_memory n gc.space.used gc.space.heap.len)

unfoldable pub alloc : RefCount → ℕ → ℕ → Exec (RefCount × GcResult)
unfolding granted refused
alloc gc refs ndata = do
  (space, found) ← Space.alloc gc.space refs ndata
  elim found [
    | some h ↦ granted (record gc { space = space }) h
    | none ↦ (do
      (space, merges) ← Space.coalesce space
      (space, found) ← Space.alloc space refs ndata
      elim found [
        | some h ↦ granted (record gc { space = space }) h
        | none ↦ refused (record gc { space = space }) refs ndata
      ])
  ]

unfoldable pub write_field : RefCount → Handle → ℕ → Handle → Exec RefCount
unfolding release retain
write_field gc obj i val = do
  old ← Heap.field gc.space.heap obj i
  gc ← release gc old
  hp ← Heap.set_field gc.space.heap obj i val
  retain (with_heap gc hp) val

-- `todo!()`
unfoldable pub on_global_changed : RefCount → Handle → Handle → Exec RefCount
on_global_changed gc old new = panic

unfoldable pub on_root_pushed : RefCount → Handle → Exec RefCount
unfolding retain
on_root_pushed gc h = retain gc h

unfoldable pub on_root_popped : RefCount → Handle → Exec RefCount
unfolding release
on_root_popped gc h = release gc h

-- `elapsed` is what the clock says of the pause.
unfoldable pub collect : RefCount → ℕ → Exec RefCount
collect gc elapsed = do
  (space, merges) ← Space.coalesce gc.space
  n ← add64 gc.stats.collections 1
  ok (record gc {
    space = space;
    stats = record_pause (record gc.stats { collections = n }) elapsed;
  })
