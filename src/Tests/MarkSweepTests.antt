-- ===== src/Tests/MarkSweepTests.antt =====
-- The sweep of crates/gc-mod04/src/lib.rs at one marked object, one that is not, and a hole.
use gc_united.Base.{ℕ, ◌≡◌, refl, true, arith, ok, [], ◌∷◌, List, ◌↔◌, add32, same_list}
use gc_united.Heap
use gc_united.Heap.{Memory, Handle, put32, put8, flag_free, flag_mark}
use gc_united.Heap.Words.{IsBytes, IsBytes-put32, IsBytes-put8}
use gc_united.Heap.Chain.{Chain}
use gc_united.Roots
use gc_united.Space
use gc_united.Space.{
  FreeListSpace, validate, valid, walk_free, compare_used, sort_free, walk_live_bytes, live_blocks,
  keep_live, sum_sizes,
}
use gc_united.Space.Validate.{validate-IsSpace}
use gc_united.Space.Invariant.{IsSpace}
use gc_united.Space.Holes.{IsOrdered}
use gc_united.Space.Merge.{Kept}
use gc_united.Space.Gaps.{Gapped}
use gc_united.Space.Coalesce.{coalesce-IsSpace}
use gc_united.MarkSweep.Sweep.{IsSwept, sweep-IsSwept}
use gc_united.Stats.{fresh}
use gc_united.MarkSweep.{MarkSweep, reclaim, sweep}
use gc_united.MarkSweep.Doomed.{dead, dead_bytes}
use gc_united.MarkSweep.Reclaim.{IsReclaimed, reclaim-IsReclaimed}

abbrev sizes : Memory
sizes = put32 (put32 (put32 (λ _. 0) 0 32) 32 32) 64 32

abbrev marked : MarkSweep
marked = record {
  space = record {
    heap = record { bytes = put8 (put8 sizes 6 flag_mark) 70 flag_free; len = 96 };
    free = 64 ∷ [];
    sorted = true;
    bump = 96;
    used = 64;
  };
  roots = Roots.new;
  stats = fresh;
  worklist = [];
  threshold = 48;
  thrashing = 0;
}

abbrev blocks : List Handle
blocks = 0 ∷ 32 ∷ 64 ∷ []

marked-Chain : Chain marked.space.heap.bytes 0 blocks 96
unfolding Heap.word32 put32 put8
marked-Chain = (
  refl,
  record { big = omega arith; whole = refl },
  (
    refl,
    record { big = omega arith; whole = refl },
    (refl, record { big = omega arith; whole = refl }, refl),
  ),
)

sizes-IsBytes : IsBytes sizes
sizes-IsBytes =
    IsBytes-put32 (put32 (put32 (λ _. 0) 0 32) 32 32) 64 32
      (IsBytes-put32 (put32 (λ _. 0) 0 32) 32 32 (IsBytes-put32 (λ _. 0) 0 32 (λ x. omega arith)))

marked-IsSpace : IsSpace marked.space blocks
unfolding Heap.word32 put32 put8 Heap.has_bit
marked-IsSpace = record {
  chain = marked-Chain;
  within = omega arith;
  whole = refl;
  addressable = omega arith;
  listed = λ a. ground arith;
  accounted = refl;
  bytes =
      IsBytes-put8 (put8 sizes 6 flag_mark) 70 flag_free
        (IsBytes-put8 sizes 6 flag_mark sizes-IsBytes);
}

-- The second object is the one to go.
dead-marked : dead marked.space.heap.bytes blocks ≡ 32 ∷ []
unfolding Heap.word32 put32 put8 Heap.has_bit
dead-marked = refl

dead_bytes-marked : dead_bytes marked.space.heap.bytes blocks ≡ 32
unfolding Heap.word32 put32 put8 Heap.has_bit
dead_bytes-marked = refl

reclaim-IsReclaimed_example :
    (gc : MarkSweep) × (reclaim marked ≡ ok gc) × IsReclaimed marked gc blocks blocks 0
reclaim-IsReclaimed_example =
    reclaim-IsReclaimed marked blocks marked-IsSpace (rw dead-marked (omega arith))
      (omega (arith, dead_bytes-marked))

-- The free list of one block is in order.
marked-IsOrdered : IsOrdered marked.space
marked-IsOrdered _ = (omega arith, omega arith)

sweep-IsSwept_example :
    (gc : MarkSweep) × (bs : List Handle) × (sweep marked ≡ ok gc) × IsSwept marked gc blocks bs
sweep-IsSwept_example =
    sweep-IsSwept marked blocks marked-IsSpace marked-IsOrdered (rw dead-marked (omega arith))
      (omega (arith, dead_bytes-marked))

coalesce-IsSpace_example :
    (s : FreeListSpace) × (merges : ℕ) × (bs : List Handle) × (Space.coalesce marked.space
      ≡ ok (s, merges))
    × IsSpace s bs
    × Kept marked.space.heap.bytes blocks s.heap.bytes bs
    × (s.used ≡ 64)
    × Gapped s.heap.bytes 0 s.free
coalesce-IsSpace_example = coalesce-IsSpace marked.space blocks marked-IsSpace marked-IsOrdered

validate-IsSpace_example :
    ((s : FreeListSpace) × (validate marked.space ≡ ok (s, valid)))
    ↔ ((bs : List Handle) × IsSpace marked.space bs)
validate-IsSpace_example =
    validate-IsSpace marked.space marked-IsOrdered (omega arith) refl (omega arith) (omega arith)
      marked-IsSpace.bytes

-- The report on this space, by evaluation.
validate-marked :
    validate marked.space ≡ ok (record marked.space { free = 64 ∷ []; sorted = true }, valid)
unfolding validate walk_free compare_used sort_free walk_live_bytes live_blocks keep_live sum_sizes
    Heap.word32 put32 put8 Heap.has_bit Heap.size Heap.u32 add32 Heap.flag Heap.u8 same_list
    Heap.walk
validate-marked = refl
