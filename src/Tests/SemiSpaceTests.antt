-- ===== src/Tests/SemiSpaceTests.antt =====
-- The half-spaces of crates/gc-mod06/src/lib.rs with one object in the half that was left.
use gc_united.Base.{ℕ, ◌+◌, ◌<◌, ◌≡◌, ◌≢◌, refl, inl, arith, ok, [], ◌∷◌}
use gc_united.Heap
use gc_united.Heap.{Memory, Handle, put32}
use gc_united.Heap.Views.{size_at}
use gc_united.Stats.{fresh}
use gc_united.SemiSpace.{SemiSpace, copy_object}
use gc_united.SemiSpace.Copy.{IsMovable, IsCopied, copy_object-IsCopied, copy_object-splits}

abbrev left : Memory
left = put32 (λ _. 0) 0 32

abbrev flipped : SemiSpace
flipped = record {
  heap = record { bytes = left; len = 128 };
  roots = record { stack = 0 ∷ 0 ∷ []; globals = [] };
  stats = fresh;
  half = 64;
  current = 64;
  idle = 0;
  free = 64;
  scan = 64;
  live_objects = 1;
  empty_collections = 0;
}

left-size : size_at left 0 ≡ 32
unfolding Heap.word32 put32
left-size = refl

flipped-IsMovable : IsMovable flipped 0
flipped-IsMovable = record {
  big = omega (arith, left-size);
  whole = rw left-size refl;
  source = omega (arith, left-size);
  apart = inl (omega (arith, left-size));
  started = omega arith;
  aligned = refl;
  room = omega (arith, left-size);
  inside = omega arith;
  addressable = omega arith;
  counted = omega arith;
}

copy_object-IsCopied_example :
    (gc : SemiSpace) × (copy_object flipped 0 ≡ ok (gc, 64))
    × IsCopied flipped gc 0 (size_at left 0)
copy_object-IsCopied_example = copy_object-IsCopied flipped 0 flipped-IsMovable

-- The half has room for two blocks of 32 bytes.
copy_object-splits_example :
    (gc1 : SemiSpace) × (first : Handle) × (copy_object flipped 0 ≡ ok (gc1, first))
    × (gc2 : SemiSpace) × (second : Handle) × (copy_object gc1 0 ≡ ok (gc2, second))
    × (first ≢ second)
    × ((i : ℕ) → i < size_at left 0 → gc2.heap.bytes (first + i) ≡ left (0 + i))
    × ((i : ℕ) → i < size_at left 0 → gc2.heap.bytes (second + i) ≡ gc1.heap.bytes (0 + i))
copy_object-splits_example =
    copy_object-splits flipped 0 flipped-IsMovable (omega (arith, left-size)) (omega arith)
