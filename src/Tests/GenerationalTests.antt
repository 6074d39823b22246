-- ===== src/Tests/GenerationalTests.antt =====
-- The generations of crates/gc-mod07/src/lib.rs with one object in the nursery.
use gc_united.Base.{
  ℕ, ◌+◌, ◌^◌, ◌-◌, ◌<◌, ◌≤◌, ◌≡◌, ◌≢◌, ◌⊎◌, refl, arith, false, ok, none, [], count, ◌==◌,
}
use gc_united.Heap
use gc_united.Heap.{Memory, Heap, Handle, off_flags, off_fwd, put16, put32}
use gc_united.Heap.Words.{IsBytes-put16, IsBytes-put32}
use gc_united.Heap.Views.{size_at, fwd_at, nrefs_at}
use gc_united.Roots
use gc_united.Space.{position}
use gc_united.Stats.{fresh}
use gc_united.Generational.{Generational, old, promote, write_field}
use gc_united.Generational.Barrier.{IsStorable, write_field-remembers_twice}
use gc_united.Generational.Promote.{IsPromotable, promote-IsOnce}

-- The object at 64 has one slot and 32 bytes.
abbrev cells : Memory
cells = put32 (put32 (put16 (λ _. 0) 68 1) 64 32) 72 (2 ^ 32 - 1)

abbrev nursed : Generational
nursed = record {
  heap = record { bytes = cells; len = 128 };
  roots = Roots.new;
  stats = fresh;
  nursery = 64;
  young_free = 96;
  young_objects = 1;
  free = [];
  old_bump = 0;
  old_used = 0;
  remembered = [];
  worklist = [];
}

cells-size : size_at cells 64 ≡ 32
unfolding Heap.word32 put32 put16
cells-size = refl

cells-nrefs : nrefs_at cells 64 ≡ 1
unfolding Heap.word16 put32 put16
cells-nrefs = refl

cells-forward : fwd_at cells 64 ≡ 2 ^ 32 - 1
unfolding Heap.word32 put32 put16
cells-forward = refl

search : position nursed.heap (size_at cells 64) 0 [] ≡ ok none
unfolding position
search = refl

nursed-IsPromotable : IsPromotable nursed 64
nursed-IsPromotable = record {
  is_young = omega arith;
  unmoved = cells-forward;
  big = omega (arith, cells-size);
  source = omega (arith, cells-size);
  unlisted = search;
  aligned = refl;
  room = omega (arith, cells-size);
  addressable = omega arith;
  used = omega (arith, cells-size);
  bytes =
      IsBytes-put32 _ _ _ (IsBytes-put32 _ _ _ (IsBytes-put16 (λ _. 0) 68 1 (λ x. omega arith)));
  promoted = omega arith;
  copied = omega arith;
}

promote-IsOnce_example :
    (gc : Generational) × (promote nursed 64 ≡ ok (gc, 0))
    × ((i : ℕ) → i < size_at cells 64 → i ≢ off_flags → gc.heap.bytes (0 + i) ≡ cells (64 + i))
    × (Heap.generation gc.heap 0 ≡ ok old)
    × (fwd_at gc.heap.bytes 64 ≡ 0)
    × ((x : ℕ)
        → (x < 0) ⊎ (0 + size_at cells 64 ≤ x)
        → (x < 64 + off_fwd) ⊎ (64 + off_fwd + 4 ≤ x)
        → gc.heap.bytes x ≡ cells x)
    × (promote gc 64 ≡ ok (gc, 0))
promote-IsOnce_example = promote-IsOnce nursed 64 nursed-IsPromotable

nursed-IsStorable : IsStorable nursed.heap 64 0
nursed-IsStorable = record { named = omega (arith, cells-nrefs); room = omega (arith, cells-nrefs) }

-- The object of the nursery is stored into itself.
write_field-remembers_twice_example :
    (gc1 : Generational) × (write_field nursed 64 0 64 ≡ ok gc1)
    × (gc2 : Generational) × (write_field gc1 64 0 64 ≡ ok gc2)
    × (count 64 gc2.remembered ≡ 2)
    × ((c : Handle) → (c == 64) ≡ false → count c gc2.remembered ≡ 0)
write_field-remembers_twice_example =
    write_field-remembers_twice nursed 64 0 64 nursed-IsStorable refl (omega arith) (omega arith)
