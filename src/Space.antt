-- ===== src/Space.antt =====
-- crates/gc-core/src/space.rs: the free-list heap under the collectors that do not move objects.
pub mod Invariant
pub mod Search
pub mod Carve
pub mod Alloc
pub mod Extend
pub mod Outcome
pub mod Return
pub mod Free
pub mod Poke
pub mod Apart
pub mod Slots
pub mod Holes
pub mod Merge
pub mod Pass
pub mod MergeLoop
pub mod Gaps
pub mod Coalesce
pub mod Audit
pub mod Crossed
pub mod Validate
pub mod Twice
use gc_united.Base.{
  ℕ, zero, suc, ◌+◌, ◌-◌, max, Bool, true, false, not, ◌&&◌, ◌||◌, if◌then◌else◌, ltb, leb, ◌==◌,
  List, [], ◌∷◌, ◌++◌, length, get_elem?, set, unsnoc, sort, same_list, Option, none, some, Exec,
  ok, panic, assert, ◌>>=◌, ◌>>◌, add32, add64, sub_checked,
}
use mathlib.Core.List.{reverse}
use gc_united.Heap
use gc_united.Heap.{Heap, Handle, header_size, flag_free, is_aligned}

pub record FreeListSpace : Type 0 where
  pub heap : Heap
  pub free : List Handle
  pub sorted : Bool
  pub bump : ℕ
  pub used : ℕ

unfoldable pub new : ℕ → Exec FreeListSpace
new capacity = do
  hp ← Heap.new capacity
  ok (record { heap = hp; free = []; sorted = true; bump = 0; used = 0 })

-- `blocks.iter().map(|&b| heap.size(b)).sum()` on `u32`
unfoldable pub sum_sizes : Heap → ℕ → List Handle → Exec ℕ
sum_sizes hp acc [] = ok acc
sum_sizes hp acc (b ∷ bs) = do n ← Heap.size hp b; acc' ← add32 acc n; sum_sizes hp acc' bs

unfoldable pub free_bytes : FreeListSpace → Exec ℕ
unfolding sum_sizes
free_bytes s = sum_sizes s.heap 0 s.free

unfoldable pub max_size : Heap → ℕ → List Handle → Exec ℕ
max_size hp acc [] = ok acc
max_size hp acc (b ∷ bs) = do n ← Heap.size hp b; max_size hp (max acc n) bs

unfoldable pub largest_free_block : FreeListSpace → Exec ℕ
unfolding max_size
largest_free_block s = max_size s.heap 0 s.free

unfoldable pub is_free : FreeListSpace → Handle → Exec Bool
is_free s h = Heap.flag s.heap h flag_free

-- `iter().position(|&b| heap.size(b) >= need)`, where the first index is `i`.
unfoldable pub position : Heap → ℕ → ℕ → List Handle → Exec (Option ℕ)
position hp need i [] = ok none
position hp need i (b ∷ bs) = do
  n ← Heap.size hp b
  rest ← (if leb need n then ok none else position hp need (suc i) bs)
  ok (if leb need n then some i else rest)

-- `Vec::swap_remove`: the last item takes the place of the one that leaves.
unfoldable pub swap_remove : ℕ → List Handle → Exec (Handle × List Handle)
unfolding unsnoc
swap_remove i xs = elim (unsnoc xs) [
  | none ↦ panic
  | some (front, last) ↦
      if i == length front
      then ok (last, front)
      else elim (get_elem? front i) [ none ↦ panic | some x ↦ ok (x, set front i last) ]
]

-- The part of a block of `n` bytes behind the first `need` goes back to the free list.
unfoldable pub split_block : Heap → List Handle → Handle → ℕ → ℕ → Exec (Heap × List Handle)
split_block hp free block need remainder =
    if ltb 0 remainder
    then (do
      hp' ← Heap.emplace_block hp (block + need) remainder
      ok (hp', free ++ (block + need) ∷ []))
    else ok (hp, free)

unfoldable pub take_at : FreeListSpace → ℕ → ℕ → Exec (FreeListSpace × ℕ)
unfolding swap_remove split_block
take_at s need idx = do
  (block, rest) ← swap_remove idx s.free
  n ← Heap.size s.heap block
  remainder ← sub_checked n need
  (hp, free) ← split_block s.heap rest block need remainder
  ok (record s { heap = hp; free = free; sorted = false }, block)

unfoldable pub take_free : FreeListSpace → ℕ → Exec (FreeListSpace × Option ℕ)
unfolding position take_at
take_free s need = do
  found ← position s.heap need 0 s.free
  elim found [
    | none ↦ ok (s, none)
    | some idx ↦ (do (s', at) ← take_at s need idx; ok (s', some at))
  ]

-- Memory past the bump pointer.
unfoldable pub take_bump : FreeListSpace → ℕ → Exec (FreeListSpace × Option ℕ)
take_bump s need = do
  end ← add32 s.bump need
  if ltb s.heap.len end then ok (s, none) else ok (record s { bump = end }, some s.bump)

unfoldable pub reserve : FreeListSpace → ℕ → Exec (FreeListSpace × Option ℕ)
unfolding take_free take_bump
reserve s need = do
  (s', found) ← take_free s need
  elim found [ none ↦ take_bump s' need | some at ↦ ok (s', some at) ]

unfoldable pub alloc : FreeListSpace → ℕ → ℕ → Exec (FreeListSpace × Option Handle)
unfolding reserve
alloc s refs ndata = do
  need ← Heap.size_for refs ndata
  (s', found) ← reserve s need
  elim found [
    | none ↦ ok (s', none)
    | some at ↦ (do
      used ← add32 s'.used need
      hp ← Heap.emplace s'.heap at refs ndata
      ok (record s' { heap = hp; used = used }, some at))
  ]

unfoldable pub free : FreeListSpace → Handle → Exec FreeListSpace
unfolding is_free
free s h = do
  freed ← is_free s h
  assert (not freed)
  n ← Heap.size s.heap h
  hp ← Heap.poison s.heap h
  hp ← Heap.set_nrefs hp h 0
  hp ← Heap.set_rc hp h 0
  hp ← Heap.set_marked hp h false
  used ← sub_checked s.used n
  ok (record s { heap = hp; free = s.free ++ h ∷ []; sorted = false; used = used })

unfoldable pub sort_free : FreeListSpace → FreeListSpace
sort_free s = if s.sorted then s else record s { free = sort s.free; sorted = true }

-- The loop of `coalesce`; `merged` has its last block in front.
unfoldable pub merge_blocks : Heap → List Handle → ℕ → List Handle → Exec (Heap × List Handle × ℕ)
merge_blocks hp merged merges [] = ok (hp, merged, merges)
merge_blocks hp [] merges (block ∷ bs) = merge_blocks hp (block ∷ []) merges bs
merge_blocks hp (prev ∷ merged) merges (block ∷ bs) = do
  n ← Heap.size hp prev
  end ← add32 prev n
  if end == block
      then (do
        k ← Heap.size hp block
        combined ← add32 n k
        hp' ← Heap.emplace_block hp prev combined
        merges' ← add64 merges 1
        merge_blocks hp' (prev ∷ merged) merges' bs)
      else merge_blocks hp (block ∷ prev ∷ merged) merges bs

-- A free run that reaches the bump pointer goes back to the memory past it.
unfoldable pub give_back : FreeListSpace → Exec FreeListSpace
give_back s = elim (unsnoc s.free) [
  | none ↦ ok s
  | some (front, last) ↦ (do
    n ← Heap.size s.heap last
    end ← add32 last n
    ok (if end == s.bump then record s { free = front; bump = last } else s))
]

unfoldable pub coalesce : FreeListSpace → Exec (FreeListSpace × ℕ)
unfolding sort_free merge_blocks give_back
coalesce s = do
  let s' = sort_free s
  (hp, merged, merges) ← merge_blocks s'.heap [] 0 s'.free
  s'' ← give_back (record s' { heap = hp; free = reverse merged; sorted = true })
  ok (s'', merges)

-- The blocks among `bs` that are not flagged free.
unfoldable pub keep_live : Heap → List Handle → Exec (List Handle)
keep_live hp [] = ok []
keep_live hp (b ∷ bs) = do
  freed ← Heap.flag hp b flag_free
  rest ← keep_live hp bs
  ok (if freed then rest else b ∷ rest)

unfoldable pub live_blocks : FreeListSpace → Exec (List Handle)
unfolding keep_live
live_blocks s = do bs ← Heap.walk s.heap 0 s.bump; keep_live s.heap bs

unfoldable pub walk_live_bytes : FreeListSpace → Exec ℕ
unfolding live_blocks sum_sizes
walk_live_bytes s = do bs ← live_blocks s; sum_sizes s.heap 0 bs

-- What `validate` reports.
pub data Verdict : Type 0 where
  valid : Verdict
  bad_block : ℕ → ℕ → Verdict
  free_list_differs : List Handle → List Handle → Verdict
  used_differs : ℕ → ℕ → Verdict

-- The walk of `validate`: the free blocks in address order, or the block at which it stops. A round
-- advances by at least `header_size`.
unfoldable pub walk_free : ℕ → Heap → ℕ → ℕ → Exec (Verdict × List Handle)
walk_free zero hp at bump = panic
walk_free (suc fuel) hp at bump = elim (ltb at bump) [
  | false ↦ ok (valid, [])
  | true ↦ (do
    n ← Heap.size hp at
    elim (ltb n header_size || not (is_aligned n)) [
      | true ↦ ok (bad_block at n, [])
      | false ↦ (do
        end ← add32 at n
        elim (ltb bump end) [
          | true ↦ ok (bad_block at n, [])
          | false ↦ (do
            freed ← Heap.flag hp at flag_free
            (v, rest) ← walk_free fuel hp end bump
            ok (v, if freed then at ∷ rest else rest))
        ])
    ])
]

unfoldable pub compare_used : FreeListSpace → Exec Verdict
unfolding walk_live_bytes
compare_used s = do
  live ← walk_live_bytes s
  ok (if s.used == live then valid else used_differs s.used live)

unfoldable pub validate : FreeListSpace → Exec (FreeListSpace × Verdict)
unfolding walk_free sort_free compare_used
validate s = do
  (v, walked) ← walk_free (suc s.bump) s.heap 0 s.bump
  elim v [
    | valid ↦ (do
      let s' = sort_free s
      verdict ←
          (if same_list s'.free walked
            then compare_used s'
            else ok (free_list_differs s'.free walked))
      ok (s', verdict))
    | other ↦ ok (s, other)
  ]
