-- ===== src/Tests/HeapTests.antt =====
-- The arena of crates/gc-core/src/heap.rs at a heap of four headers.
use gc_united.Base.{ℕ, ◌+◌, ◌^◌, ◌<◌, ◌≡◌, refl, true, arith, ok, [], ◌∷◌, ltb}
use gc_united.Heap
use gc_united.Heap.{
  Heap, Memory, Handle, put32, write, header_size, off_size, off_flags, flag_free, put8,
}
use gc_united.Heap.Words.{IsBytes, SameOutside}
use gc_united.Heap.Sizes.{IsFootprint, size_for-IsFootprint}
use gc_united.Heap.Flags.{flag-set_flag, generation-set_generation, age-set_age}
use gc_united.Heap.Emplace.{IsFresh, emplace-IsFresh, emplace_block-IsHeader}
use gc_united.Heap.Blocks.{IsHeader}
use gc_united.Heap.Moves.{IsWiped, relocate-copies, poison-IsWiped}
use gc_united.Heap.Chain.{Chain, walk-Chain}
use gc_united.Heap.Views.{size_at}

abbrev zeroed : Memory
zeroed = λ _. 0

zeroed-IsBytes : IsBytes zeroed
zeroed-IsBytes x = omega arith

abbrev arena : Heap
arena = record { bytes = zeroed; len = 64 }

-- Two blocks of 32 bytes; the second is flagged free.
abbrev two_blocks : Heap
two_blocks = record { bytes = put8 (put32 (put32 zeroed 0 32) 32 32) 38 flag_free; len = 64 }

-- A flags byte with every bit read back after a write.
size_for_small : Heap.size_for 2 8 ≡ ok 32
unfolding Heap.size_for Heap.align_up
size_for_small = refl

size_for-IsFootprint_example : IsFootprint 2 8 32
size_for-IsFootprint_example = size_for-IsFootprint 2 8 32 size_for_small

flag-set_flag_example :
    (hp : Heap) × (Heap.set_flag arena 16 (2 ^ 3) true ≡ ok hp)
    × (Heap.flag hp 16 (2 ^ 3) ≡ ok true)
flag-set_flag_example =
    flag-set_flag arena 16 (omega arith) zeroed-IsBytes 3 3 true (omega arith) (omega arith)

generation-set_generation_example :
    (hp : Heap) × (Heap.set_generation arena 16 1 ≡ ok hp)
    × (Heap.generation hp 16 ≡ ok 1)
    × (Heap.age hp 16 ≡ Heap.age arena 16)
    × (Heap.flag hp 16 (2 ^ 2) ≡ Heap.flag arena 16 (2 ^ 2))
generation-set_generation_example =
    generation-set_generation arena 16 (omega arith) zeroed-IsBytes 1 2 (omega arith) (omega arith)

emplace-IsFresh_example :
    (m : Memory) × (Heap.emplace arena 16 2 8 ≡ ok (write arena m)) × IsFresh zeroed m 16 32 2
emplace-IsFresh_example =
    emplace-IsFresh arena 16 2 8 32 size_for_small (omega arith) refl (omega arith) (omega arith)

emplace_block-IsHeader_example :
    (m : Memory) × (Heap.emplace_block arena 16 32 ≡ ok (write arena m))
    × IsHeader m 16 32 0 flag_free
    × SameOutside 16 32 zeroed m
    × (IsBytes zeroed → IsBytes m)
emplace_block-IsHeader_example =
    emplace_block-IsHeader arena 16 32 refl (omega arith) refl (omega arith) (omega arith)

second_size : size_at two_blocks.bytes 32 ≡ 32
unfolding Heap.word32 put32 put8
second_size = refl

-- The block slides down over half of itself.
relocate-copies_example :
    (m : Memory) × (Heap.relocate two_blocks 32 16 ≡ ok (write two_blocks m))
    × ((i : ℕ) → i < size_at two_blocks.bytes 32 → m (16 + i) ≡ two_blocks.bytes (32 + i))
    × SameOutside 16 (16 + size_at two_blocks.bytes 32) two_blocks.bytes m
relocate-copies_example =
    relocate-copies two_blocks 32 16 (omega arith) (omega (arith, second_size)) refl
      (omega (arith, second_size))

poison-IsWiped_example :
    (m : Memory) × (Heap.poison two_blocks 32 ≡ ok (write two_blocks m))
    × IsWiped two_blocks.bytes m 32 (size_at two_blocks.bytes 32)
    × (Heap.is_poisoned (write two_blocks m) 32
        ≡ ok (ltb header_size (size_at two_blocks.bytes 32)))
poison-IsWiped_example =
    poison-IsWiped two_blocks 32 (omega (arith, second_size)) (omega (arith, second_size))

second_block-Chain : Chain two_blocks.bytes 32 (32 ∷ []) 64
unfolding Heap.word32 put32 put8
second_block-Chain = (refl, record { big = omega arith; whole = refl }, refl)

-- A walk that starts at the second block.
walk-Chain_example : Heap.walk two_blocks 32 64 ≡ ok (32 ∷ [])
walk-Chain_example =
    walk-Chain two_blocks (32 ∷ []) 32 64 second_block-Chain (omega arith) (omega arith)

age-set_age_example :
    (hp : Heap) × (Heap.set_age arena 16 2 ≡ ok hp)
    × (Heap.age hp 16 ≡ ok 2)
    × (Heap.generation hp 16 ≡ Heap.generation arena 16)
    × (Heap.flag hp 16 (2 ^ 1) ≡ Heap.flag arena 16 (2 ^ 1))
age-set_age_example =
    age-set_age arena 16 (omega arith) zeroed-IsBytes 2 1 (omega arith) (omega arith)
