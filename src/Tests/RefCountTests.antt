-- ===== src/Tests/RefCountTests.antt =====
-- The reference counting of crates/gc-mod02/src/lib.rs at a heap of three objects.
use gc_united.Base.{ℕ, ◌+◌, ◌-◌, ◌≡◌, ◌≢◌, refl, true, false, arith, ok, [], ◌∷◌, has, List}
use gc_united.Heap
use gc_united.Heap.{Memory, Handle, put16, put32}
use gc_united.Heap.Words.{IsBytes, IsBytes-put16, IsBytes-put32}
use gc_united.Heap.Views.{rc_at, slot_at}
use gc_united.Heap.Chain.{Chain, free_at}
use gc_united.Roots
use gc_united.Space.Invariant.{IsSpace}
use gc_united.Stats.{fresh}
use gc_united.RefCount.{RefCount, retain, release, write_field}
use gc_united.RefCount.Counts.{IsCounted, retain-IsCounted, release-IsCounted}
use gc_united.RefCount.Last.{IsDropped, release-IsDropped}
use gc_united.Space.Slots.{HasSlot}
use gc_united.RefCount.Write.{write_field-counts, write_field-frees_stored}

-- The object at 0 has one slot, which names the object at 32; that one has `n` references, and the
-- object at 64 has one.
abbrev holder : Memory
holder = put32 (put32 (put16 (put32 (λ _. 0) 0 32) 4 1) 12 1) 16 32

abbrev pub trio_bytes : ℕ → Memory
trio_bytes n = put32 (put32 (put32 (put32 holder 32 32) 44 n) 64 32) 76 1

abbrev pub trio : ℕ → RefCount
trio n = record {
  space = record {
    heap = record { bytes = trio_bytes n; len = 96 };
    free = [];
    sorted = true;
    bump = 96;
    used = 96;
  };
  roots = Roots.new;
  stats = fresh;
  pending = [];
}

abbrev pub blocks : List Handle
blocks = 0 ∷ 32 ∷ 64 ∷ []

trio-IsBytes : (n : ℕ) → IsBytes (trio_bytes n)
trio-IsBytes n =
    let first = IsBytes-put32 (λ _. 0) 0 32 (λ x. omega arith) in
    let slots = IsBytes-put16 (put32 (λ _. 0) 0 32) 4 1 first in
    let counted = IsBytes-put32 (put16 (put32 (λ _. 0) 0 32) 4 1) 12 1 slots in
    let held = IsBytes-put32 (put32 (put16 (put32 (λ _. 0) 0 32) 4 1) 12 1) 16 32 counted in
    let second = IsBytes-put32 holder 32 32 held in
    let second' = IsBytes-put32 (put32 holder 32 32) 44 n second in
    let third = IsBytes-put32 (put32 (put32 holder 32 32) 44 n) 64 32 second' in
    IsBytes-put32 (put32 (put32 (put32 holder 32 32) 44 n) 64 32) 76 1 third

trio-Chain : (n : ℕ) → Chain (trio_bytes n) 0 blocks 96
unfolding Heap.word32 put32 put16
trio-Chain n = (
  refl,
  record { big = omega arith; whole = refl },
  (
    refl,
    record { big = omega arith; whole = refl },
    (refl, record { big = omega arith; whole = refl }, refl),
  ),
)

pub trio-IsSpace : (n : ℕ) → IsSpace (trio n).space blocks
unfolding Heap.word32 put32 put16 Heap.has_bit
trio-IsSpace n = record {
  chain = trio-Chain n;
  within = omega arith;
  whole = refl;
  addressable = omega arith;
  listed = λ a. ground arith;
  accounted = refl;
  bytes = trio-IsBytes n;
}

pub trio-slot : HasSlot (trio_bytes 1) 0 0
unfolding Heap.word32 put32 put16 Heap.word16
trio-slot = record { named = omega arith; room = omega arith }

trio-slot_shared : HasSlot (trio_bytes 2) 0 0
unfolding Heap.word32 put32 put16 Heap.word16
trio-slot_shared = record { named = omega arith; room = omega arith }

pub holds : slot_at (trio_bytes 1) 0 0 ≡ 32
unfolding Heap.word32 put32 put16
holds = refl

holds_shared : slot_at (trio_bytes 2) 0 0 ≡ 32
unfolding Heap.word32 put32 put16
holds_shared = refl

live : free_at (trio_bytes 1) 32 ≡ false
unfolding Heap.word32 put32 put16 Heap.has_bit
live = refl

pub one : rc_at (trio_bytes 1) 32 ≡ 1
unfolding Heap.word32 put32 put16
one = refl

two : rc_at (trio_bytes 2) 32 ≡ 2
unfolding Heap.word32 put32 put16
two = refl

third : rc_at (trio_bytes 2) 64 ≡ 1
unfolding Heap.word32 put32 put16
third = refl

sized : Heap.word32 (trio_bytes 1) 32 ≡ 32
unfolding Heap.word32 put32 put16
sized = refl

retain-IsCounted_example :
    (gc : RefCount) × (retain (trio 1) 32 ≡ ok gc)
    × IsCounted (trio 1) gc blocks 32 (rc_at (trio_bytes 1) 32 + 1)
retain-IsCounted_example =
    retain-IsCounted (trio 1) blocks 32 (trio-IsSpace 1) refl (omega (arith, one))

release-IsCounted_example :
    (gc : RefCount) × (release (trio 2) 32 ≡ ok gc)
    × IsCounted (trio 2) gc blocks 32 (rc_at (trio_bytes 2) 32 - 1)
release-IsCounted_example =
    release-IsCounted (trio 2) blocks 32 (trio-IsSpace 2) refl refl (omega (arith, two))

-- The holder itself goes, and the object it names keeps its count.
release-IsDropped_example :
    (gc : RefCount) × (release (trio 1) 32 ≡ ok gc) × IsDropped (trio 1) gc blocks 32
release-IsDropped_example =
    release-IsDropped (trio 1) blocks 32 (trio-IsSpace 1) refl live one refl (omega arith)
      (omega (arith, sized))

write_field-counts_example :
    (gc : RefCount) × (write_field (trio 2) 0 0 64 ≡ ok gc)
    × IsSpace gc.space blocks
    × (slot_at gc.space.heap.bytes 0 0 ≡ 64)
    × (rc_at gc.space.heap.bytes 32 + 1 ≡ rc_at (trio_bytes 2) 32)
    × (rc_at gc.space.heap.bytes 64 ≡ rc_at (trio_bytes 2) 64 + 1)
    × ((c : Handle)
        → has c blocks ≡ true
        → c ≢ 32
        → c ≢ 64
        → rc_at gc.space.heap.bytes c ≡ rc_at (trio_bytes 2) c)
write_field-counts_example =
    write_field-counts (trio 2) blocks 0 0 (trio-IsSpace 2) refl trio-slot_shared refl 32 64
      holds_shared refl refl (ground arith) (omega (arith, two)) (omega (arith, third))

write_field-frees_stored_example :
    (gc : RefCount) × (write_field (trio 1) 0 0 32 ≡ ok gc)
    × IsSpace gc.space blocks
    × (free_at gc.space.heap.bytes 32 ≡ true)
    × (slot_at gc.space.heap.bytes 0 0 ≡ 32)
    × (rc_at gc.space.heap.bytes 32 ≡ 1)
write_field-frees_stored_example =
    write_field-frees_stored (trio 1) blocks 0 0 (trio-IsSpace 1) refl trio-slot refl 32 holds refl
      (ground arith) live one (omega arith) (omega (arith, sized))
