-- ===== src/Tests/SpaceTests.antt =====
-- The free-list space of crates/gc-core/src/space.rs at small heaps.
use gc_united.Base.{
  panic, ◌↔◌, ◌>>=◌, ℕ, ◌+◌, ◌<◌, ◌≡◌, refl, ◌⊎◌, true, false, arith, ok, [], ◌∷◌, none, has,
}
use gc_united.Heap
use gc_united.Heap.{Heap, Memory, Handle, put32, put8, write, flag_free}
use gc_united.Heap.Words.{IsBytes-put32, IsBytes-put8}
use gc_united.Heap.Views.{size_at}
use gc_united.Heap.Chain.{Chain}
use gc_united.Space
use gc_united.Space.{FreeListSpace}
use gc_united.Space.Invariant.{IsSpace}
use gc_united.Space.Alloc.{Allocated}
use gc_united.Space.Outcome.{alloc-outcome}
use gc_united.Space.Twice.{free-panics}
use gc_united.Space.Free.{IsReleased, free-IsReleased, new-IsSpace}

-- A live block at 0 and a free one at 32, of 32 bytes each, in an arena of 128 bytes.
abbrev small : FreeListSpace
small = record {
  heap = record { bytes = put8 (put32 (put32 (λ _. 0) 0 32) 32 32) 38 flag_free; len = 128 };
  free = 32 ∷ [];
  sorted = true;
  bump = 64;
  used = 32;
}

small-Chain : Chain small.heap.bytes 0 (0 ∷ 32 ∷ []) 64
unfolding Heap.word32 put32 put8
small-Chain = (
  refl,
  record { big = omega arith; whole = refl },
  (refl, record { big = omega arith; whole = refl }, refl),
)

small-IsSpace : IsSpace small (0 ∷ 32 ∷ [])
unfolding Heap.word32 put32 put8 Heap.has_bit
small-IsSpace = record {
  chain = small-Chain;
  within = omega arith;
  whole = refl;
  addressable = omega arith;
  listed = λ a. ground arith;
  accounted = refl;
  bytes =
      IsBytes-put8 (put32 (put32 (λ _. 0) 0 32) 32 32) 38 flag_free (
        IsBytes-put32 (put32 (λ _. 0) 0 32) 32 32 (IsBytes-put32 (λ _. 0) 0 32 (λ x. omega arith)));
}

sized : Heap.size_for 2 8 ≡ ok 32
unfolding Heap.size_for Heap.align_up
sized = refl

alloc-outcome_example :
    ((h : Handle) × Allocated small (0 ∷ 32 ∷ []) 2 8 32 h)
    ⊎ ((Space.alloc small 2 8 ≡ ok (small, none))
        × ((a : ℕ) → has a small.free ≡ true → size_at small.heap.bytes a < 32)
        × (small.heap.len < small.bump + 32))
alloc-outcome_example =
    alloc-outcome small 2 8 32 sized (omega arith) (0 ∷ 32 ∷ []) small-IsSpace (omega arith)

live_at_zero : Heap.has_bit (small.heap.bytes 6) flag_free ≡ false
unfolding put32 put8 Heap.has_bit
live_at_zero = refl

free-IsReleased_example :
    (s : FreeListSpace) × (Space.free small 0 ≡ ok s) × IsReleased small s (0 ∷ 32 ∷ []) 0
free-IsReleased_example = free-IsReleased small (0 ∷ 32 ∷ []) 0 small-IsSpace refl live_at_zero

free-panics_example :
    ((Space.free small 0 ≡ panic) ↔ (has 0 small.free ≡ true))
    × ((Space.free small 0 >>= (λ s. Space.free s 0)) ≡ panic)
free-panics_example = free-panics small (0 ∷ 32 ∷ []) 0 small-IsSpace refl

new-IsSpace_example : (s : FreeListSpace) × (Space.new 64 ≡ ok s) × IsSpace s [] × (s.heap.len ≡ 64)
new-IsSpace_example = new-IsSpace 64 (omega arith) (omega arith) refl
