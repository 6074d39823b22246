-- ===== src/CycleCollector.antt =====
-- crates/gc-mod03/src/lib.rs: reference counting with trial deletion of cycles.
pub mod Touch
pub mod Counts
pub mod Write
pub mod Restored
pub mod Black
use gc_united.Base.{
  ℕ, zero, suc, ◌+◌, Bool, true, false, if◌then◌else◌, ltb, ◌==◌, List, [], ◌∷◌, ◌++◌, length,
  unsnoc, none, some, Exec, ok, panic, assert, ◌>>=◌, ◌>>◌, add32, add64, sub_checked,
}
use gc_united.Heap
use gc_united.Heap.{Heap, Handle, flag_buffered, is_null, size_for}
use gc_united.Space
use gc_united.Space.{FreeListSpace}
use gc_united.Roots
use gc_united.Roots.{Roots}
use gc_united.Stats.{
  GcStats, fresh, account, count_freed, count_major, GcResult, allocated, out_of_memory,
}

abbrev pub black : ℕ
black = 0

abbrev pub gray : ℕ
gray = 1

abbrev pub white : ℕ
white = 2

abbrev pub purple : ℕ
purple = 3

pub record CycleCollector : Type 0 where
  pub space : FreeListSpace
  pub roots : Roots
  pub stats : GcStats
  pub pending : List Handle
  pub candidates : List Handle
  pub cycles_collected : ℕ

unfoldable pub new : ℕ → Exec CycleCollector
new capacity = do
  space ← Space.new capacity
  ok (record {
    space = space;
    roots = Roots.new;
    stats = fresh;
    pending = [];
    candidates = [];
    cycles_collected = 0;
  })

abbrev pub with_heap : CycleCollector → Heap → CycleCollector
with_heap gc hp = record gc { space = record gc.space { heap = hp } }

unfoldable pub rc_of : CycleCollector → Handle → Exec ℕ
rc_of gc h = Heap.rc gc.space.heap h

unfoldable pub is_freed : CycleCollector → Handle → Exec Bool
is_freed gc h = Space.is_free gc.space h

unfoldable pub color_of : CycleCollector → Handle → Exec ℕ
color_of gc h = Heap.color gc.space.heap h

unfoldable pub candidate_count : CycleCollector → ℕ
candidate_count gc = length gc.candidates

unfoldable pub set_color : CycleCollector → Handle → ℕ → Exec CycleCollector
set_color gc h c = do hp ← Heap.set_color gc.space.heap h c; ok (with_heap gc hp)

unfoldable pub buffered : CycleCollector → Handle → Exec Bool
buffered gc h = Heap.flag gc.space.heap h flag_buffered

unfoldable pub set_buffered : CycleCollector → Handle → Bool → Exec CycleCollector
set_buffered gc h on = do hp ← Heap.set_flag gc.space.heap h flag_buffered on; ok (with_heap gc hp)

unfoldable pub children : CycleCollector → Handle → Exec (List Handle)
children gc h = Heap.children gc.space.heap h

unfoldable pub retain : CycleCollector → Handle → Exec CycleCollector
unfolding set_color
retain gc h = if is_null h then ok gc else (do
  n ← Heap.rc gc.space.heap h
  n' ← add32 n 1
  hp ← Heap.set_rc gc.space.heap h n'
  set_color (with_heap gc hp) h black)

unfoldable pub possible_root : CycleCollector → Handle → Exec CycleCollector
unfolding color_of set_color buffered set_buffered
possible_root gc s = do
  c ← color_of gc s
  if c == purple then ok gc else (do
    gc ← set_color gc s purple
    filed ← buffered gc s
    if filed then ok gc else (do
      gc ← set_buffered gc s true
      ok (record gc { candidates = gc.candidates ++ s ∷ [] })))

unfoldable pub free_object : CycleCollector → Handle → Exec CycleCollector
unfolding set_buffered
free_object gc h = do
  n ← Heap.size gc.space.heap h
  gc ← set_buffered gc h false
  space ← Space.free gc.space h
  stats ← count_freed gc.stats n
  ok (record gc { space = space; stats = stats })

-- One round of `release`: one reference less to `obj`.
unfoldable pub drop_one : CycleCollector → Handle → Exec CycleCollector
unfolding children free_object possible_root
drop_one gc obj = do
  n ← Heap.rc gc.space.heap obj
  assert (ltb 0 n)
  n' ← sub_checked n 1
  hp ← Heap.set_rc gc.space.heap obj n'
  let gc' = with_heap gc hp
  if n == 1
      then (do cs ← children gc' obj; free_object (record gc' { pending = gc'.pending ++ cs }) obj)
      else possible_root gc' obj

-- The loop of `release`, which pops from the end. A round takes an item off `pending`, or frees an
-- object and adds no more items than it has slots.
unfoldable pub drain : ℕ → CycleCollector → Exec CycleCollector
unfolding unsnoc drop_one
drain zero gc = elim gc.pending [ [] ↦ ok gc | _ ∷ _ ↦ panic ]
drain (suc fuel) gc = elim (unsnoc gc.pending) [
  | none ↦ ok gc
  | some (rest, obj) ↦ (do gc' ← drop_one (record gc { pending = rest }) obj; drain fuel gc')
]

-- An object of a well-formed space is at least as large as its slots are many, so the bytes in use
-- and the pending items are fuel enough.
unfoldable pub release : CycleCollector → Handle → Exec CycleCollector
unfolding drain
release gc h =
    if is_null h
    then ok gc
    else drain (suc (length gc.pending + gc.space.used))
        (record gc { pending = gc.pending ++ h ∷ [] })

-- `todo!()`
unfoldable pub mark_gray : CycleCollector → Handle → Exec CycleCollector
mark_gray gc root = panic

-- What `scan_black` does with the children of one object; `work` has its last item at the end.
unfoldable pub restore_children :
    CycleCollector → List Handle → List Handle → Exec (CycleCollector × List Handle)
unfolding color_of set_color
restore_children gc work [] = ok (gc, work)
restore_children gc work (t ∷ ts) = do
  c ← color_of gc t
  if c == black then restore_children gc work ts else (do
    n ← Heap.rc gc.space.heap t
    n' ← add32 n 1
    hp ← Heap.set_rc gc.space.heap t n'
    gc ← set_color (with_heap gc hp) t black
    restore_children gc (work ++ t ∷ []) ts)

-- The loop of `scan_black`. An object enters `work` once, when it turns black.
unfoldable pub restore : ℕ → CycleCollector → List Handle → Exec CycleCollector
unfolding unsnoc children restore_children
restore zero gc work = elim work [ [] ↦ ok gc | _ ∷ _ ↦ panic ]
restore (suc fuel) gc work = elim (unsnoc work) [
  | none ↦ ok gc
  | some (rest, s) ↦ (do
    cs ← children gc s
    (gc', work') ← restore_children gc rest cs
    restore fuel gc' work')
]

-- No more objects turn black than there are bytes.
unfoldable pub scan_black : CycleCollector → Handle → Exec CycleCollector
unfolding set_color restore
scan_black gc root = do gc ← set_color gc root black; restore (suc gc.space.heap.len) gc (root ∷ [])

-- The loop of `scan`. A round takes an item off `work`, or turns a gray object white and adds no
-- more items than it has slots.
unfoldable pub scan_loop : ℕ → CycleCollector → List Handle → Exec CycleCollector
unfolding unsnoc color_of set_color children scan_black
scan_loop zero gc work = elim work [ [] ↦ ok gc | _ ∷ _ ↦ panic ]
scan_loop (suc fuel) gc work = elim (unsnoc work) [
  | none ↦ ok gc
  | some (rest, s) ↦ (do
    c ← color_of gc s
    elim (c == gray) [
      | false ↦ scan_loop fuel gc rest
      | true ↦ (do
        n ← Heap.rc gc.space.heap s
        elim (ltb 0 n) [
          | true ↦ (do gc' ← scan_black gc s; scan_loop fuel gc' rest)
          | false ↦ (do
            gc' ← set_color gc s white
            cs ← children gc' s
            scan_loop fuel gc' (rest ++ cs))
        ])
    ])
]

-- Slots and objects together are fewer than the bytes.
unfoldable pub scan : CycleCollector → Handle → Exec CycleCollector
unfolding scan_loop
scan gc root = scan_loop (suc gc.space.heap.len) gc (root ∷ [])

-- `todo!()`
unfoldable pub collect_white : CycleCollector → Handle → Exec CycleCollector
collect_white gc root = panic

-- An entry is stale if the block was freed, or reused, since it was filed.
unfoldable pub is_stale : CycleCollector → Handle → Exec Bool
unfolding buffered
is_stale gc s = do filed ← buffered gc s; if filed then Space.is_free gc.space s else ok true

unfoldable pub is_suspect : CycleCollector → Handle → Exec Bool
unfolding is_stale color_of
is_suspect gc s = do
  stale ← is_stale gc s
  if stale then ok false else (do
    c ← color_of gc s
    if c == purple then (do n ← Heap.rc gc.space.heap s; ok (ltb 0 n)) else ok false)

-- The first pass: the suspects among the candidates, each marked gray.
unfoldable pub gray_suspects : CycleCollector → List Handle → Exec (CycleCollector × List Handle)
unfolding is_suspect mark_gray
gray_suspects gc [] = ok (gc, [])
gray_suspects gc (s ∷ ss) = do
  suspect ← is_suspect gc s
  gc ← (if suspect then mark_gray gc s else ok gc)
  (gc, roots) ← gray_suspects gc ss
  ok (gc, if suspect then s ∷ roots else roots)

-- The second pass.
unfoldable pub scan_all : CycleCollector → List Handle → Exec CycleCollector
unfolding scan
scan_all gc [] = ok gc
scan_all gc (s ∷ ss) = do gc ← scan gc s; scan_all gc ss

-- The third pass.
unfoldable pub collect_all : CycleCollector → List Handle → Exec CycleCollector
unfolding set_buffered collect_white
collect_all gc [] = ok gc
collect_all gc (s ∷ ss) = do
  gc ← set_buffered gc s false
  gc ← collect_white gc s
  collect_all gc ss

unfoldable pub collect_cycles : CycleCollector → Exec CycleCollector
unfolding gray_suspects scan_all collect_all
collect_cycles gc = do
  (gc, roots) ← gray_suspects (record gc { candidates = [] }) gc.candidates
  gc ← scan_all gc roots
  collect_all gc roots

-- `elapsed` is what the clock says of the pause.
unfoldable pub collect : CycleCollector → ℕ → Exec CycleCollector
unfolding collect_cycles
collect gc elapsed = do
  gc ← collect_cycles gc
  (space, merges) ← Space.coalesce gc.space
  stats ← count_major gc.stats elapsed
  ok (record gc { space = space; stats = stats })

unfoldable pub granted : CycleCollector → Handle → Exec (CycleCollector × GcResult)
granted gc h = do
  stats ← account gc.stats gc.space.heap h gc.space.used
  ok (record gc { stats = stats }, allocated h)

unfoldable pub refused : CycleCollector → ℕ → ℕ → Exec (CycleCollector × GcResult)
refused gc refs ndata = do
  failures ← add64 gc.stats.allocation_failures 1
  n ← size_for refs ndata
  let st = record gc.stats { allocation_failures = failures }
  ok (record gc { stats = st }, out_of_memory n gc.space.used gc.space.heap.len)

unfoldable pub alloc : CycleCollector → ℕ → ℕ → ℕ → Exec (CycleCollector × GcResult)
unfolding collect granted refused
alloc gc refs ndata elapsed = do
  (space, found) ← Space.alloc gc.space refs ndata
  elim found [
    | some h ↦ granted (record gc { space = space }) h
    | none ↦ (do
      gc ← collect (record gc { space = space }) elapsed
      (space, found) ← Space.alloc gc.space refs ndata
      elim found [
        | some h ↦ granted (record gc { space = space }) h
        | none ↦ refused (record gc { space = space }) refs ndata
      ])
  ]

unfoldable pub write_field : CycleCollector → Handle → ℕ → Handle → Exec CycleCollector
unfolding retain release
write_field gc obj i val = do
  gc ← retain gc val
  old ← Heap.field gc.space.heap obj i
  hp ← Heap.set_field gc.space.heap obj i val
  release (with_heap gc hp) old

unfoldable pub on_global_changed : CycleCollector → Handle → Handle → Exec CycleCollector
unfolding retain release
on_global_changed gc old new = do gc ← retain gc new; release gc old

unfoldable pub on_root_pushed : CycleCollector → Handle → Exec CycleCollector
unfolding retain
on_root_pushed gc h = retain gc h

unfoldable pub on_root_popped : CycleCollector → Handle → Exec CycleCollector
unfolding release
on_root_popped gc h = release gc h
