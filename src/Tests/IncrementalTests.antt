-- ===== src/Tests/IncrementalTests.antt =====
-- The write barrier of crates/gc-mod08/src/lib.rs at a black object and a white one.
use gc_united.Base.{true, ◌≡◌, refl, arith, ok, [], ◌∷◌, List}
use gc_united.Heap
use gc_united.Heap.{Memory, Handle, put8, put16, put32, white, black}
use gc_united.Heap.Words.{IsBytes-put8, IsBytes-put16, IsBytes-put32}
use gc_united.Heap.Views.{color_at, slot_at}
use gc_united.Heap.Chain.{Chain}
use gc_united.Roots
use gc_united.Space.Invariant.{IsSpace}
use gc_united.Space.Slots.{HasSlot}
use gc_united.Stats.{fresh}
use gc_united.Incremental.{Incremental, marking, write_field}
use gc_united.Incremental.Barrier.{write_field-hides}

abbrev sizes : Memory
sizes = put32 (put32 (λ _. 0) 0 32) 32 32

abbrev colored : Memory
colored = put8 (put16 sizes 4 1) 7 black

-- The object at 0 has one slot and is black; the object at 32 is white.
abbrev midway : Incremental
midway = record {
  space = record {
    heap = record { bytes = colored; len = 64 };
    free = [];
    sorted = true;
    bump = 64;
    used = 64;
  };
  roots = Roots.new;
  stats = fresh;
  phase = marking;
  grey_set = [];
  threshold = 32;
}

abbrev blocks : List Handle
blocks = 0 ∷ 32 ∷ []

midway-Chain : Chain colored 0 blocks 64
unfolding Heap.word32 put32 put16 put8
midway-Chain = (
  refl,
  record { big = omega arith; whole = refl },
  (refl, record { big = omega arith; whole = refl }, refl),
)

midway-IsSpace : IsSpace midway.space blocks
unfolding Heap.word32 put32 put16 put8 Heap.has_bit
midway-IsSpace = record {
  chain = midway-Chain;
  within = omega arith;
  whole = refl;
  addressable = omega arith;
  listed = λ a. ground arith;
  accounted = refl;
  bytes = IsBytes-put8 (put16 sizes 4 1) 7 black (
      IsBytes-put16 sizes 4 1 (
        IsBytes-put32 (put32 (λ _. 0) 0 32) 32 32
          (IsBytes-put32 (λ _. 0) 0 32 (λ x. omega arith))));
}

midway-slot : HasSlot colored 0 0
unfolding Heap.word32 Heap.word16 put32 put16 put8
midway-slot = record { named = omega arith; room = omega arith }

finished : color_at colored 0 ≡ black
unfolding put32 put16 put8
finished = refl

not_reached : color_at colored 32 ≡ white
unfolding put32 put16 put8
not_reached = refl

write_field-hides_example :
    (gc : Incremental) × (write_field midway 0 0 32 ≡ ok gc)
    × (gc.phase ≡ marking)
    × (slot_at gc.space.heap.bytes 0 0 ≡ 32)
    × (color_at gc.space.heap.bytes 0 ≡ black)
    × (color_at gc.space.heap.bytes 32 ≡ white)
    × (gc.grey_set ≡ [])
write_field-hides_example =
    write_field-hides midway blocks 0 32 0 midway-IsSpace refl refl midway-slot refl finished
      not_reached (omega arith)
