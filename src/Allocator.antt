-- ===== src/Allocator.antt =====
-- crates/gc-mod01/src/lib.rs: the allocator whose client frees by hand.
pub mod Order
pub mod Free
pub mod Fit
pub mod Outcome
pub mod Split
use gc_united.Base.{
  ℕ, zero, suc, ◌+◌, ◌-◌, Bool, true, false, not, ◌&&◌, ◌||◌, if◌then◌else◌, ltb, leb, ◌==◌, List,
  [], ◌∷◌, length, sort, same_list, Option, none, some, Exec, ok, panic, assert, ◌>>=◌, ◌>>◌, add32,
  add64, sub_checked,
}
use gc_united.Heap
use gc_united.Heap.{Heap, Handle, header_size, flag_free, is_aligned, size_for}
use gc_united.Space
use gc_united.Space.{FreeListSpace}

pub data FitPolicy : Type 0 where
  first : FitPolicy
  best : FitPolicy

pub record AllocStats : Type 0 where
  pub allocations : ℕ
  pub frees : ℕ
  pub bytes_allocated : ℕ
  pub bytes_freed : ℕ
  pub splits : ℕ
  pub merges : ℕ
  pub failures : ℕ
  pub reused : ℕ

pub record Allocator : Type 0 where
  pub heap : Heap
  pub free_handles : List Handle
  pub bump : ℕ
  pub used : ℕ
  pub policy : FitPolicy
  pub stats : AllocStats

-- The heap and the free list of the allocator as a space.
abbrev pub view : Allocator → FreeListSpace
view a = record {
  heap = a.heap;
  free = a.free_handles;
  sorted = false;
  bump = a.bump;
  used = a.used;
}

abbrev pub no_stats : AllocStats
no_stats = record {
  allocations = 0;
  frees = 0;
  bytes_allocated = 0;
  bytes_freed = 0;
  splits = 0;
  merges = 0;
  failures = 0;
  reused = 0;
}

unfoldable pub with_policy : ℕ → FitPolicy → Exec Allocator
with_policy capacity policy = do
  hp ← Heap.new capacity
  ok (record {
    heap = hp;
    free_handles = [];
    bump = 0;
    used = 0;
    policy = policy;
    stats = no_stats;
  })

unfoldable pub new : ℕ → Exec Allocator
unfolding with_policy
new capacity = with_policy capacity first

unfoldable pub free_bytes : Allocator → Exec ℕ
free_bytes a = Space.sum_sizes a.heap 0 a.free_handles

unfoldable pub virgin_bytes : Allocator → Exec ℕ
virgin_bytes a = sub_checked a.heap.len a.bump

unfoldable pub largest_free_block : Allocator → Exec ℕ
largest_free_block a = Space.max_size a.heap 0 a.free_handles

unfoldable pub fits : Heap → Handle → ℕ → Exec Bool
fits hp block need = do n ← Heap.size hp block; ok (ltb need n && leb header_size (n - need))

-- `position` of the first block that fits, where the first index is `i`.
unfoldable pub first_fit : Heap → ℕ → ℕ → List Handle → Exec (Option ℕ)
unfolding fits
first_fit hp need i [] = ok none
first_fit hp need i (b ∷ bs) = do
  fit ← fits hp b need
  rest ← (if fit then ok none else first_fit hp need (suc i) bs)
  ok (if fit then some i else rest)

-- `todo!()`
unfoldable pub best_fit : Allocator → ℕ → Exec (Option ℕ)
best_fit a need = panic

-- `Vec::remove`
unfoldable pub remove : ℕ → List Handle → Exec (Handle × List Handle)
remove i [] = panic
remove zero (x ∷ xs) = ok (x, xs)
remove (suc i) (x ∷ xs) = do (y, ys) ← remove i xs; ok (y, x ∷ ys)

unfoldable pub take_at : Allocator → ℕ → ℕ → Exec (Allocator × ℕ)
unfolding remove
take_at a need idx = do
  (block, rest) ← remove idx a.free_handles
  n ← Heap.size a.heap block
  remainder ← sub_checked n need
  (hp, free) ← Space.split_block a.heap rest block need remainder
  splits ← (if ltb 0 remainder then add64 a.stats.splits 1 else ok a.stats.splits)
  ok (
    record a { heap = hp; free_handles = free; stats = record a.stats { splits = splits } },
    block,
  )

unfoldable pub take_from_free_list : Allocator → ℕ → Exec (Allocator × Option ℕ)
unfolding first_fit best_fit take_at
take_from_free_list a need = do
  found ← elim a.policy [ first ↦ first_fit a.heap need 0 a.free_handles | best ↦ best_fit a need ]
  elim found [
    | none ↦ ok (a, none)
    | some idx ↦ (do (a', at) ← take_at a need idx; ok (a', some at))
  ]

unfoldable pub take_from_virgin : Allocator → ℕ → Exec (Allocator × Option ℕ)
take_from_virgin a need = do
  remaining ← sub_checked a.heap.len a.bump
  if ltb need remaining
      then (do bump ← add32 a.bump need; ok (record a { bump = bump }, some a.bump))
      else ok (a, none)

-- The object goes to `at`.
unfoldable pub place : Allocator → ℕ → ℕ → ℕ → ℕ → Exec (Allocator × Option Handle)
place a at refs ndata need = do
  hp ← Heap.emplace a.heap at refs ndata
  used ← add32 a.used need
  allocations ← add64 a.stats.allocations 1
  bytes ← add64 a.stats.bytes_allocated need
  let st = record a.stats { allocations = allocations; bytes_allocated = bytes }
  ok (record a { heap = hp; used = used; stats = st }, some at)

unfoldable pub alloc : Allocator → ℕ → ℕ → Exec (Allocator × Option Handle)
unfolding take_from_free_list take_from_virgin place
alloc a refs ndata = do
  need ← size_for refs ndata
  (a, found) ← take_from_free_list a need
  elim found [
    | some at ↦ (do
      reused ← add64 a.stats.reused 1
      place (record a { stats = record a.stats { reused = reused } }) at refs ndata need)
    | none ↦ (do
      (a, fresh) ← take_from_virgin a need
      elim fresh [
        | some at ↦ place a at refs ndata need
        | none ↦ (do
          failures ← add64 a.stats.failures 1
          ok (record a { stats = record a.stats { failures = failures } }, none))
      ])
  ]

-- `insert` at the `partition_point` of the addresses below `h`: on a list in address order, which is
-- what `partition_point` is documented for, the index behind the last of them.
unfoldable pub insert_free : Handle → List Handle → List Handle
insert_free h [] = h ∷ []
insert_free h (b ∷ bs) = if ltb b h then b ∷ insert_free h bs else h ∷ b ∷ bs

unfoldable pub free : Allocator → Handle → Exec Allocator
unfolding insert_free
free a h = do
  freed ← Heap.flag a.heap h flag_free
  assert (not freed)
  n ← Heap.size a.heap h
  hp ← Heap.poison a.heap h
  hp ← Heap.set_nrefs hp h 0
  used ← sub_checked a.used n
  frees ← add64 a.stats.frees 1
  bytes ← add64 a.stats.bytes_freed n
  let st = record a.stats { frees = frees; bytes_freed = bytes }
  ok (record a { heap = hp; free_handles = insert_free h a.free_handles; used = used; stats = st })

-- `todo!()`
unfoldable pub coalesce_all : Allocator → Exec Allocator
coalesce_all a = panic

-- What `validate` reports.
pub data Report : Type 0 where
  sound : Report
  bad_size : ℕ → ℕ → ℕ → Report
  past_bump : ℕ → ℕ → ℕ → Report
  ended_elsewhere : ℕ → Report
  free_list_differs : List Handle → List Handle → Report
  not_in_order : Report

-- The walk of `validate`: where it ends and the free blocks it met, or what it reports. A round
-- advances by at least `header_size`.
unfoldable pub walk_blocks : ℕ → Heap → ℕ → ℕ → ℕ → Exec (Report × ℕ × List Handle)
walk_blocks zero hp bump blocks at = panic
walk_blocks (suc fuel) hp bump blocks at = elim (ltb at bump) [
  | false ↦ ok (sound, at, [])
  | true ↦ (do
    n ← Heap.size hp at
    elim (ltb n header_size || not (is_aligned n)) [
      | true ↦ ok (bad_size blocks at n, at, [])
      | false ↦ (do
        end ← add32 at n
        elim (ltb bump end) [
          | true ↦ ok (past_bump blocks at n, at, [])
          | false ↦ (do
            freed ← Heap.flag hp at flag_free
            blocks' ← add64 blocks 1
            (report, last, rest) ← walk_blocks fuel hp bump blocks' end
            ok (report, last, if freed then at ∷ rest else rest))
        ])
    ])
]

-- Every two neighbours, `windows(2)`, in address order.
unfoldable pub in_order : List Handle → Bool
in_order [] = true
in_order (x ∷ []) = true
in_order (x ∷ y ∷ ys) = ltb x y && in_order (y ∷ ys)

unfoldable pub validate : Allocator → Exec Report
unfolding walk_blocks in_order
validate a = do
  (report, last, walked) ← walk_blocks (suc a.bump) a.heap a.bump 0 0
  elim report [
    | sound ↦ ok (
        if not (last == a.bump)
        then ended_elsewhere last
        else if not (same_list (sort a.free_handles) walked)
        then free_list_differs (sort a.free_handles) walked
        else if in_order a.free_handles
        then sound
        else not_in_order)
    | other ↦ ok other
  ]

unfoldable pub live_blocks : Allocator → Exec (List Handle)
live_blocks a = do bs ← Heap.walk a.heap 0 a.bump; Space.keep_live a.heap bs

unfoldable pub walk_live_bytes : Allocator → Exec ℕ
unfolding live_blocks
walk_live_bytes a = do bs ← live_blocks a; Space.sum_sizes a.heap 0 bs
