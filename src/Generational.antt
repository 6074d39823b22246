-- ===== src/Generational.antt =====
-- crates/gc-mod07/src/lib.rs: a nursery, and an old generation under mark and sweep.
pub mod Barrier
pub mod Promote
use gc_united.Base.{
  ℕ, zero, suc, ◌/◌, Bool, true, false, not, ◌&&◌, if◌then◌else◌, ltb, leb, List, [], ◌∷◌, ◌++◌,
  length, Option, none, some, Exec, ok, panic, assert, ◌>>=◌, ◌>>◌, add32, mul32, add64,
  sub_checked,
}
use gc_united.Heap
use gc_united.Heap.{Heap, Handle, flag_buffered, flag_free, is_null, align_up, size_for}
use gc_united.Space.{position, swap_remove, split_block, keep_live}
use gc_united.Marking.{mark_from}
use gc_united.Roots
use gc_united.Roots.{Roots}
use gc_united.Stats.{
  GcStats, fresh, account as account_stats, count_freed, count_major, record_pause, GcResult,
  allocated, out_of_memory,
}

abbrev pub nursery_fraction : ℕ
nursery_fraction = 64

abbrev pub major_threshold_percent : ℕ
major_threshold_percent = 75

abbrev pub young : ℕ
young = 0

abbrev pub old : ℕ
old = 1

pub record Generational : Type 0 where
  pub heap : Heap
  pub roots : Roots
  pub stats : GcStats
  pub nursery : ℕ
  pub young_free : ℕ
  pub young_objects : ℕ
  pub free : List Handle
  pub old_bump : ℕ
  pub old_used : ℕ
  pub remembered : List Handle
  pub worklist : List Handle

unfoldable pub new : ℕ → Exec Generational
new capacity = do
  hp ← Heap.new capacity
  nursery_bytes ← align_up (hp.len / nursery_fraction)
  assert (ltb 0 nursery_bytes && ltb nursery_bytes hp.len)
  nursery ← sub_checked hp.len nursery_bytes
  ok (record {
    heap = hp;
    roots = Roots.new;
    stats = fresh;
    nursery = nursery;
    young_free = nursery;
    young_objects = 0;
    free = [];
    old_bump = 0;
    old_used = 0;
    remembered = [];
    worklist = [];
  })

unfoldable pub nursery_size : Generational → Exec ℕ
nursery_size gc = sub_checked gc.heap.len gc.nursery

unfoldable pub young_used : Generational → Exec ℕ
young_used gc = sub_checked gc.young_free gc.nursery

unfoldable pub is_young : Generational → Handle → Bool
is_young gc h = leb gc.nursery h

unfoldable pub remembered_count : Generational → ℕ
remembered_count gc = length gc.remembered

unfoldable pub is_remembered : Generational → Handle → Exec Bool
is_remembered gc h = Heap.flag gc.heap h flag_buffered

unfoldable pub old_objects : Generational → Exec (List Handle)
old_objects gc = do bs ← Heap.walk gc.heap 0 gc.old_bump; keep_live gc.heap bs

-- The block of the free list at `idx`, split when it is larger than the request.
unfoldable pub old_take : Generational → ℕ → ℕ → Exec (Generational × Option ℕ)
old_take gc n idx = do
  (block, rest) ← swap_remove idx gc.free
  have ← Heap.size gc.heap block
  remainder ← sub_checked have n
  (hp, free) ← split_block gc.heap rest block n remainder
  used ← add32 gc.old_used n
  ok (record gc { heap = hp; free = free; old_used = used }, some block)

-- Memory of the old generation that was never handed out.
unfoldable pub old_extend : Generational → ℕ → Exec (Generational × Option ℕ)
old_extend gc n = do
  end ← add32 gc.old_bump n
  if leb end gc.nursery
      then (do
        used ← add32 gc.old_used n
        ok (record gc { old_bump = end; old_used = used }, some gc.old_bump))
      else ok (gc, none)

unfoldable pub old_alloc : Generational → ℕ → Exec (Generational × Option ℕ)
unfolding old_take old_extend
old_alloc gc n = do
  found ← position gc.heap n 0 gc.free
  elim found [ some idx ↦ old_take gc n idx | none ↦ old_extend gc n ]

-- The part of `promote` that moves the object to `at`.
unfoldable pub promote_to : Generational → Handle → ℕ → Exec (Generational × Handle)
promote_to gc h at = do
  hp ← Heap.relocate gc.heap h at
  hp ← Heap.set_forward hp h at
  hp ← Heap.set_generation hp at old
  promoted ← add64 gc.stats.objects_promoted 1
  copied ← add64 gc.stats.objects_copied 1
  let st = record gc.stats { objects_promoted = promoted; objects_copied = copied }
  ok (record gc { heap = hp; stats = st; worklist = gc.worklist ++ at ∷ [] }, at)

unfoldable pub promote : Generational → Handle → Exec (Generational × Handle)
unfolding old_alloc promote_to
promote gc h = do
  already ← Heap.forward gc.heap h
  if not (is_null already) then ok (gc, already) else (do
    n ← Heap.size gc.heap h
    (gc', found) ← old_alloc gc n
    elim found [ none ↦ panic | some at ↦ promote_to gc' h at ])

-- `todo!()`
unfoldable pub evacuate_nursery : Generational → Exec Generational
evacuate_nursery gc = panic

-- The slots of `obj` from `i` on, `n` of them.
unfoldable pub scan_slots : Generational → Handle → ℕ → ℕ → Exec Generational
unfolding is_young promote
scan_slots gc obj i zero = ok gc
scan_slots gc obj i (suc n) = do
  child ← Heap.field gc.heap obj i
  gc' ←
      (if not (is_null child) && is_young gc child
        then (do
          (gc', moved) ← promote gc child
          hp ← Heap.set_field gc'.heap obj i moved
          ok (record gc' { heap = hp }))
        else ok gc)
  scan_slots gc' obj (suc i) n

unfoldable pub scan_for_young : Generational → Handle → Exec Generational
unfolding scan_slots
scan_for_young gc obj = do n ← Heap.nrefs gc.heap obj; scan_slots gc obj 0 n

-- One more collection of the nursery.
unfoldable pub count_minor : GcStats → ℕ → Exec GcStats
unfolding record_pause
count_minor st elapsed = do
  collections ← add64 st.collections 1
  minor ← add64 st.minor_collections 1
  ok (record_pause (record st { collections = collections; minor_collections = minor }) elapsed)

unfoldable pub minor_collect : Generational → ℕ → Exec Generational
unfolding evacuate_nursery count_minor
minor_collect gc elapsed = do
  gc ← evacuate_nursery gc
  stats ← count_minor gc.stats elapsed
  ok (record gc { stats = stats })

unfoldable pub mark_old : Generational → Exec Generational
mark_old gc = do
  (hp, marks) ← mark_from gc.heap gc.stats.objects_marked (Roots.handles gc.roots)
  let st = record gc.stats { objects_marked = marks }
  ok (record gc { heap = hp; stats = st; worklist = [] })

-- What the loop of `sweep_old` carries besides its position.
pub record Sweep : Type 0 where
  pub heap : Heap
  pub stats : GcStats
  pub free : List Handle
  pub run : Option ℕ
  pub used : ℕ

-- The run of garbage that ends at `at`, if there is one, becomes a free block.
unfoldable pub close_run : Sweep → ℕ → Exec Sweep
close_run w at = elim w.run [
  | none ↦ ok w
  | some s ↦ (do
    n ← sub_checked at s
    hp ← Heap.emplace_block w.heap s n
    ok (record w { heap = hp; free = w.free ++ s ∷ []; run = none }))
]

-- `run.get_or_insert(at)`
unfoldable pub open_run : Sweep → ℕ → Sweep
open_run w at = elim w.run [ none ↦ record w { run = some at } | some s ↦ w ]

-- A marked block that is not free.
unfoldable pub keep_block : Sweep → ℕ → ℕ → Exec Sweep
unfolding close_run
keep_block w at n = do
  hp ← Heap.set_marked w.heap at false
  used ← add32 w.used n
  close_run (record w { heap = hp; used = used }) at

-- A block that was free or is not marked.
unfoldable pub drop_block : Sweep → ℕ → ℕ → Bool → Exec Sweep
unfolding open_run
drop_block w at n was_free = do
  w' ←
      (if was_free then ok w else (do
        stats ← count_freed w.stats n
        hp ← Heap.poison w.heap at
        ok (record w { heap = hp; stats = stats })))
  ok (open_run w' at)

-- The loop of `sweep_old`. A round advances by the size of a block.
unfoldable pub sweep_from : ℕ → Sweep → ℕ → ℕ → Exec Sweep
unfolding keep_block drop_block
sweep_from zero w at end = panic
sweep_from (suc fuel) w at end = elim (ltb at end) [
  | false ↦ ok w
  | true ↦ (do
    n ← Heap.size w.heap at
    was_free ← Heap.flag w.heap at flag_free
    marked ← (if was_free then ok false else Heap.is_marked w.heap at)
    w' ← (if marked then keep_block w at n else drop_block w at n was_free)
    next ← add32 at n
    sweep_from fuel w' next end)
]

unfoldable pub sweep_old : Generational → Exec Generational
unfolding sweep_from close_run
sweep_old gc = do
  let start : Sweep = record { heap = gc.heap; stats = gc.stats; free = []; run = none; used = 0 }
  w ← sweep_from (suc gc.old_bump) start 0 gc.old_bump
  w ← close_run w gc.old_bump
  ok (record gc { heap = w.heap; stats = w.stats; free = w.free; old_used = w.used })

unfoldable pub major_collect : Generational → ℕ → Exec Generational
unfolding evacuate_nursery mark_old sweep_old
major_collect gc elapsed = do
  gc ← evacuate_nursery gc
  gc ← mark_old gc
  gc ← sweep_old gc
  stats ← count_major gc.stats elapsed
  ok (record gc { stats = stats })

unfoldable pub used_bytes : Generational → Exec ℕ
unfolding young_used
used_bytes gc = do n ← young_used gc; add32 gc.old_used n

unfoldable pub account : Generational → Handle → Exec (Generational × GcResult)
unfolding used_bytes
account gc h = do
  used ← used_bytes gc
  stats ← account_stats gc.stats gc.heap h used
  ok (record gc { stats = stats }, allocated h)

unfoldable pub refused : Generational → ℕ → Exec (Generational × GcResult)
unfolding used_bytes
refused gc need = do
  failures ← add64 gc.stats.allocation_failures 1
  used ← used_bytes gc
  let st = record gc.stats { allocation_failures = failures }
  ok (record gc { stats = st }, out_of_memory need used gc.heap.len)

-- An object larger than the nursery. The memory that the first `old_alloc` reserves is not used.
unfoldable pub alloc_large : Generational → ℕ → ℕ → ℕ → ℕ → Exec (Generational × GcResult)
unfolding old_alloc major_collect account refused
alloc_large gc need refs ndata elapsed = do
  (gc, first) ← old_alloc gc need
  gc ← elim first [ none ↦ major_collect gc elapsed | some _ ↦ ok gc ]
  (gc, second) ← old_alloc gc need
  elim second [
    | some at ↦ (do
      hp ← Heap.emplace gc.heap at refs ndata
      hp ← Heap.set_generation hp at old
      account (record gc { heap = hp }) at)
    | none ↦ refused gc need
  ]

-- The collections that `alloc` runs when the nursery is full.
unfoldable pub make_room : Generational → ℕ × ℕ → Exec Generational
unfolding minor_collect major_collect
make_room gc pauses = do
  gc ← minor_collect gc pauses.0
  filled ← mul32 gc.old_used 100
  bound ← mul32 gc.nursery major_threshold_percent
  if ltb bound filled then major_collect gc pauses.1 else ok gc

-- The part of `alloc` that follows the collections.
unfoldable pub bump : Generational → ℕ → ℕ → ℕ → Exec (Generational × GcResult)
unfolding account refused
bump gc need refs ndata = do
  end ← add32 gc.young_free need
  if ltb gc.heap.len end then refused gc need else (do
    let at = gc.young_free
    objects ← add64 gc.young_objects 1
    hp ← Heap.emplace gc.heap at refs ndata
    account (record gc { heap = hp; young_free = end; young_objects = objects }) at)

-- `pauses` are the clock's answers for the two collections that a call may run.
unfoldable pub alloc : Generational → ℕ → ℕ → ℕ × ℕ → Exec (Generational × GcResult)
unfolding nursery_size alloc_large make_room bump
alloc gc refs ndata pauses = do
  need ← size_for refs ndata
  room ← nursery_size gc
  if ltb room need then alloc_large gc need refs ndata pauses.0 else (do
    end ← add32 gc.young_free need
    gc ← (if ltb gc.heap.len end then make_room gc pauses else ok gc)
    bump gc need refs ndata)

-- The write barrier: the flag of the holder, and an entry for it.
unfoldable pub remember : Generational → Handle → Exec Generational
remember gc obj = do
  hp ← Heap.set_flag gc.heap obj flag_buffered true
  let entries = gc.remembered ++ obj ∷ []
  let st = record gc.stats { remembered_entries = length entries }
  ok (record gc { heap = hp; remembered = entries; stats = st })

unfoldable pub write_field : Generational → Handle → ℕ → Handle → Exec Generational
unfolding is_young remember
write_field gc obj i val = do
  hits ← add64 gc.stats.barrier_hits 1
  let counted = record gc { stats = record gc.stats { barrier_hits = hits } }
  gc' ← (if not (is_null val) && is_young counted val then remember counted obj else ok counted)
  hp ← Heap.set_field gc'.heap obj i val
  ok (record gc' { heap = hp })

unfoldable pub collect : Generational → ℕ → Exec Generational
unfolding major_collect
collect gc elapsed = major_collect gc elapsed
