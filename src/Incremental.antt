-- ===== src/Incremental.antt =====
-- crates/gc-mod08/src/lib.rs: incremental marking with three colours.
pub mod Barrier
use gc_united.Base.{
  ℕ, zero, suc, ◌+◌, ◌-◌, ◌*◌, ◌/◌, ◌^◌, min, max, Bool, true, false, not, ◌&&◌, if◌then◌else◌, ltb,
  leb, ◌==◌, List, [], ◌∷◌, ◌++◌, Option, none, some, Exec, ok, panic, ◌>>=◌, add32, add64,
}
use gc_united.Heap
use gc_united.Heap.{Heap, Handle, white, grey, black, is_null, size_for}
use gc_united.Space
use gc_united.Space.{FreeListSpace}
use gc_united.Roots
use gc_united.Roots.{Roots}
use gc_united.Stats.{
  GcStats, fresh, account, count_freed, record_pause, GcResult, allocated, out_of_memory,
}

abbrev pub min_threshold : ℕ
min_threshold = 64 * 1024

abbrev pub mark_budget : ℕ
mark_budget = 8

abbrev pub drain_budget : ℕ
drain_budget = 64

pub data Phase : Type 0 where
  idle : Phase
  marking : Phase

-- `grey_set` is the field `grey`.
pub record Incremental : Type 0 where
  pub space : FreeListSpace
  pub roots : Roots
  pub stats : GcStats
  pub phase : Phase
  pub grey_set : List Handle
  pub threshold : ℕ

abbrev pub with_heap : Incremental → Heap → Incremental
with_heap gc hp = record gc { space = record gc.space { heap = hp } }

unfoldable pub new : ℕ → Exec Incremental
new capacity = do
  space ← Space.new capacity
  ok (record {
    space = space;
    roots = Roots.new;
    stats = fresh;
    phase = idle;
    grey_set = [];
    threshold = min min_threshold (capacity / 2);
  })

unfoldable pub color_of : Incremental → Handle → Exec ℕ
color_of gc h = Heap.color gc.space.heap h

unfoldable pub is_black : Incremental → Handle → Exec Bool
is_black gc h = do c ← color_of gc h; ok (c == black)

unfoldable pub objects : Incremental → Exec (List Handle)
objects gc = do bs ← Heap.walk gc.space.heap 0 gc.space.bump; Space.keep_live gc.space.heap bs

unfoldable pub shade : Incremental → Handle → Exec Incremental
shade gc h = do
  c ← Heap.color gc.space.heap h
  if c == white
      then (do
        hp ← Heap.set_color gc.space.heap h grey
        ok (record (with_heap gc hp) { grey_set = gc.grey_set ++ h ∷ [] }))
      else ok gc

unfoldable pub shade_all : Incremental → List Handle → Exec Incremental
unfolding shade
shade_all gc [] = ok gc
shade_all gc (r ∷ rs) = do gc ← shade gc r; shade_all gc rs

unfoldable pub start_cycle : Incremental → Exec Incremental
unfolding shade_all
start_cycle gc = do
  gc ← shade_all (record gc { grey_set = [] }) (Roots.handles gc.roots)
  ok (record gc { phase = marking })

-- `todo!()`
unfoldable pub mark_step : Incremental → ℕ → Exec Incremental
mark_step gc budget = panic

-- The loop calls `mark_step` while anything is grey; since that panics, its first round is its last.
unfoldable pub finish_marking : Incremental → Exec Incremental
unfolding shade_all mark_step
finish_marking gc = do
  gc ← shade_all gc (Roots.handles gc.roots)
  elim gc.grey_set [ [] ↦ ok gc | _ ∷ _ ↦ mark_step gc drain_budget ]

-- The first loop of `sweep`: the white objects from `at` on, and the heap in which the others are
-- white again. A round advances by the size of a block.
unfoldable pub whiten : ℕ → Heap → ℕ → ℕ → Exec (Heap × List Handle)
whiten zero hp bump at = panic
whiten (suc fuel) hp bump at = elim (ltb at bump) [
  | false ↦ ok (hp, [])
  | true ↦ (do
    n ← Heap.size hp at
    next ← add32 at n
    freed ← Heap.flag hp at Heap.flag_free
    elim freed [
      | true ↦ whiten fuel hp bump next
      | false ↦ (do
        c ← Heap.color hp at
        hp' ← (if c == white then ok hp else Heap.set_color hp at white)
        (hp'', rest) ← whiten fuel hp' bump next
        ok (hp'', if c == white then at ∷ rest else rest))
    ])
]

-- The second loop of `sweep`.
unfoldable pub free_all : Incremental → List Handle → Exec Incremental
free_all gc [] = ok gc
free_all gc (h ∷ hs) = do
  n ← Heap.size gc.space.heap h
  space ← Space.free gc.space h
  stats ← count_freed gc.stats n
  free_all (record gc { space = space; stats = stats }) hs

unfoldable pub sweep : Incremental → Exec Incremental
unfolding whiten free_all
sweep gc = do
  (hp, doomed) ← whiten (suc gc.space.bump) gc.space.heap gc.space.bump 0
  gc ← free_all (with_heap gc hp) doomed
  (space, merges) ← Space.coalesce gc.space
  let doubled = min (space.used * 2) (2 ^ 32 - 1)
  let threshold = min (max doubled min_threshold) space.heap.len
  ok (record gc { space = space; phase = idle; threshold = threshold })

-- One more cycle.
unfoldable pub count_cycle : GcStats → Exec GcStats
count_cycle st = do
  collections ← add64 st.collections 1
  major ← add64 st.major_collections 1
  ok (record st { collections = collections; major_collections = major })

-- `elapsed` is what the clock says of the pause.
unfoldable pub complete_cycle : Incremental → ℕ → Exec Incremental
unfolding start_cycle finish_marking sweep count_cycle
complete_cycle gc elapsed = do
  gc ← elim gc.phase [ idle ↦ start_cycle gc | marking ↦ ok gc ]
  gc ← finish_marking gc
  gc ← sweep gc
  stats ← count_cycle gc.stats
  ok (record gc { stats = record_pause stats elapsed })

-- The part of `alloc` that drives marking forward.
unfoldable pub advance : Incremental → ℕ → Exec Incremental
unfolding start_cycle mark_step finish_marking sweep count_cycle
advance gc elapsed = elim gc.phase [
  | marking ↦ (do
    gc ← mark_step gc mark_budget
    gc ← elim gc.grey_set [
      | [] ↦ (do
        gc ← finish_marking gc
        gc ← sweep gc
        stats ← count_cycle gc.stats
        ok (record gc { stats = stats }))
      | _ ∷ _ ↦ ok gc
    ]
    ok (record gc { stats = record_pause gc.stats elapsed }))
  | idle ↦ if leb gc.threshold gc.space.used then start_cycle gc else ok gc
]

-- A new object is white.
unfoldable pub granted : Incremental → Handle → Exec (Incremental × GcResult)
granted gc h = do
  hp ← Heap.set_color gc.space.heap h white
  stats ← account gc.stats hp h gc.space.used
  ok (record (with_heap gc hp) { stats = stats }, allocated h)

unfoldable pub refused : Incremental → ℕ → ℕ → Exec (Incremental × GcResult)
refused gc refs ndata = do
  failures ← add64 gc.stats.allocation_failures 1
  n ← size_for refs ndata
  let st = record gc.stats { allocation_failures = failures }
  ok (record gc { stats = st }, out_of_memory n gc.space.used gc.space.heap.len)

-- `pauses` are the clock's answers for the increment and for a full cycle.
unfoldable pub alloc : Incremental → ℕ → ℕ → ℕ × ℕ → Exec (Incremental × GcResult)
unfolding advance complete_cycle granted refused
alloc gc refs ndata pauses = do
  gc ← advance gc pauses.0
  (space, found) ← Space.alloc gc.space refs ndata
  elim found [
    | some h ↦ granted (record gc { space = space }) h
    | none ↦ (do
      gc ← complete_cycle (record gc { space = space }) pauses.1
      (space, found) ← Space.alloc gc.space refs ndata
      elim found [
        | some h ↦ granted (record gc { space = space }) h
        | none ↦ refused (record gc { space = space }) refs ndata
      ])
  ]

-- The write barrier, before the store.
unfoldable pub barrier : Incremental → Handle → Handle → Exec Incremental
unfolding shade
barrier gc obj val = elim gc.phase [
  | idle ↦ ok gc
  | marking ↦
      if is_null val
      then ok gc
      else (do c ← Heap.color gc.space.heap obj; if c == black then ok gc else shade gc val)
]

unfoldable pub write_field : Incremental → Handle → ℕ → Handle → Exec Incremental
unfolding barrier
write_field gc obj i val = do
  hits ← add64 gc.stats.barrier_hits 1
  gc ← barrier (record gc { stats = record gc.stats { barrier_hits = hits } }) obj val
  hp ← Heap.set_field gc.space.heap obj i val
  ok (with_heap gc hp)
