-- ===== src/Tests/AllocatorTests.antt =====
-- The allocator of crates/gc-mod01/src/lib.rs at a heap with a gap on either side of an object.
use gc_united.Base.{◌≡◌, refl, true, false, arith, ok, some, [], ◌∷◌, List}
use gc_united.Heap
use gc_united.Heap.{Heap, Memory, Handle, put32, put8, flag_free}
use gc_united.Heap.Words.{IsBytes, IsBytes-put32, IsBytes-put8}
use gc_united.Heap.Views.{size_at}
use gc_united.Heap.Chain.{Chain, free_at}
use gc_united.Space.Invariant.{IsSpace}
use gc_united.Allocator
use gc_united.Allocator.{Allocator, AllocStats, FitPolicy, first, view, alloc, free, in_order}
use gc_united.Allocator.Outcome.{HasCounterRoom, Outcome, alloc-Outcome}
use gc_united.Allocator.Split.{alloc-unsorts}
use gc_united.Allocator.Free.{IsGivenBack, free-IsGivenBack}

abbrev sizes : Memory
sizes = put32 (put32 (put32 (λ _. 0) 0 64) 64 32) 96 32

-- Free blocks of 64 bytes at 0 and of 32 bytes at 96; between them an object of 32 bytes.
abbrev gaps : Allocator
gaps = record {
  heap = record { bytes = put8 (put8 sizes 6 flag_free) 102 flag_free; len = 128 };
  free_handles = 0 ∷ 96 ∷ [];
  bump = 128;
  used = 32;
  policy = first;
  stats = Allocator.no_stats;
}

abbrev blocks : List Handle
blocks = 0 ∷ 64 ∷ 96 ∷ []

gaps-Chain : Chain gaps.heap.bytes 0 blocks 128
unfolding Heap.word32 put32 put8
gaps-Chain = (
  refl,
  record { big = omega arith; whole = refl },
  (
    refl,
    record { big = omega arith; whole = refl },
    (refl, record { big = omega arith; whole = refl }, refl),
  ),
)

sizes-IsBytes : IsBytes sizes
sizes-IsBytes =
    IsBytes-put32 (put32 (put32 (λ _. 0) 0 64) 64 32) 96 32
      (IsBytes-put32 (put32 (λ _. 0) 0 64) 64 32 (IsBytes-put32 (λ _. 0) 0 64 (λ x. omega arith)))

gaps-IsSpace : IsSpace (view gaps) blocks
unfolding Heap.word32 put32 put8 Heap.has_bit
gaps-IsSpace = record {
  chain = gaps-Chain;
  within = omega arith;
  whole = refl;
  addressable = omega arith;
  listed = λ a. ground arith;
  accounted = refl;
  bytes =
      IsBytes-put8 (put8 sizes 6 flag_free) 102 flag_free
        (IsBytes-put8 sizes 6 flag_free sizes-IsBytes);
}

counters : HasCounterRoom Allocator.no_stats 32
counters = record {
  allocations = omega arith;
  bytes = omega arith;
  splits = omega arith;
  failures = omega arith;
  reused = omega arith;
}

footprint : Heap.size_for 2 8 ≡ ok 32
unfolding Heap.size_for Heap.align_up
footprint = refl

ordered : in_order gaps.free_handles ≡ true
unfolding in_order
ordered = refl

first_size : size_at gaps.heap.bytes 0 ≡ 64
unfolding Heap.word32 put32 put8
first_size = refl

middle_size : size_at gaps.heap.bytes 64 ≡ 32
unfolding Heap.word32 put32 put8
middle_size = refl

middle_live : free_at gaps.heap.bytes 64 ≡ false
unfolding put32 put8 Heap.has_bit
middle_live = refl

alloc-Outcome_example : Outcome gaps blocks 2 8 32
alloc-Outcome_example =
    alloc-Outcome gaps 2 8 32 footprint (omega arith) refl counters blocks gaps-IsSpace

alloc-unsorts_example :
    (a : Allocator) × (alloc gaps 2 8 ≡ ok (a, some 0)) × (in_order a.free_handles ≡ false)
alloc-unsorts_example =
    alloc-unsorts gaps 2 8 32 footprint (omega arith) refl counters blocks gaps-IsSpace 0 96 [] refl
      ordered (omega (arith, first_size))

free-IsGivenBack_example :
    (a : Allocator) × (free gaps 64 ≡ ok a)
    × IsGivenBack gaps a blocks 64
    × (in_order gaps.free_handles ≡ true → in_order a.free_handles ≡ true)
free-IsGivenBack_example =
    free-IsGivenBack gaps blocks 64 gaps-IsSpace refl middle_live (omega arith)
      (omega (arith, middle_size))
