-- ===== src/Heap/Flags.antt =====
-- The flag byte: four single bits, a generation and an age, none of which disturbs another.
use gc_united.Base.{
  ℕ, zero, suc, ◌+◌, ◌%◌, ◌^◌, ◌≤◌, ◌<◌, ◌≡◌, refl, ap, Bool, true, false, ◌&&◌, ◌==◌, arith, ok,
  if◌then◌else◌,
}
use mathlib.Core.Bool.{not}
use gc_united.Heap.Arena.{
  Heap, Handle, header_size, gen_mask, gen_shift, age_mask, age_shift, off_flags, put8, write,
}
use gc_united.Heap.Header.{
  has_bit, with_bit, bits_of, with_bits, flags, flag, set_flag, generation, set_generation, age,
  set_age,
}
use gc_united.Heap.Words.{IsBytes, put8_self}
use gc_united.Heap.Views.{flags_at, flags-ok, set_flags-ok}

-- The test holds of every number under the limit.
every : (ℕ → Bool) → ℕ → Bool
every test zero = true
every test (suc limit) = every test limit && test limit

every-lt : (test : ℕ → Bool) (limit k : ℕ) → every test limit ≡ true → k < limit → test k ≡ true
unfolding every
every-lt test zero k all lt = absurd (omega arith)
every-lt test (suc limit) k all lt = ground (arith, every-lt test limit k)

abbrev same_bool : Bool → Bool → Bool
same_bool true b = b
same_bool false b = not b

same_bool-eq : (a b : Bool) → same_bool a b ≡ true → a ≡ b
same_bool-eq a b h = ground arith

-- One entry of the table: bit `k` is set to `on`, bit `j` is read.
bit_test : ℕ → ℕ → ℕ → Bool → Bool
bit_test f k j on =
    same_bool (has_bit (with_bit f (2 ^ k) on % 256) (2 ^ j))
      (if k == j then on else has_bit f (2 ^ j))

bit_rows : Bool → ℕ → Bool
unfolding every bit_test has_bit with_bit
bit_rows on f = every (λ k. every (λ j. bit_test f k j on) 8) 8

bit_table : (on : Bool) → every (bit_rows on) 256 ≡ true
unfolding bit_rows
bit_table true = refl
bit_table false = refl

pub has_bit-with_bit :
    (f k j : ℕ) (on : Bool)
    → f < 256
    → k < 8
    → j < 8
    → has_bit (with_bit f (2 ^ k) on % 256) (2 ^ j) ≡ (if k == j then on else has_bit f (2 ^ j))
unfolding bit_rows
has_bit-with_bit f k j on a b c =
    let row = every-lt (bit_rows on) 256 f (bit_table on) a in
    let cell = every-lt (λ k. every (λ j. bit_test f k j on) 8) 8 k row b in
    same_bool-eq _ _ (unfold bit_test in every-lt (λ j. bit_test f k j on) 8 j cell c)

-- One entry of the table for a field of two bits: `v` is written to one field, then that field,
-- the other one and the single bit `j` are read.
field_test : ℕ → ℕ → ℕ → ℕ → ℕ → ℕ → ℕ → Bool
field_test mask shift mask' shift' f v j =
    let f' = with_bits f mask shift v % 256 in
    (bits_of f' mask shift == v)
    && (bits_of f' mask' shift' == bits_of f mask' shift')
    && same_bool (has_bit f' (2 ^ j)) (has_bit f (2 ^ j))

field_rows : ℕ → ℕ → ℕ → ℕ → ℕ → Bool
unfolding every field_test bits_of with_bits has_bit
field_rows mask shift mask' shift' f =
    every (λ v. every (λ j. field_test mask shift mask' shift' f v j) 4) 4

generation_table : every (field_rows gen_mask gen_shift age_mask age_shift) 256 ≡ true
unfolding field_rows
generation_table = refl

age_table : every (field_rows age_mask age_shift gen_mask gen_shift) 256 ≡ true
unfolding field_rows
age_table = refl

-- `f'` is `f` with the field at `mask` set to `v`, as far as the other accessors tell.
abbrev FieldSet : ℕ → ℕ → ℕ → ℕ → ℕ → ℕ → ℕ → Type 0
FieldSet mask shift mask' shift' f v j =
    (bits_of (with_bits f mask shift v % 256) mask shift ≡ v)
    × (bits_of (with_bits f mask shift v % 256) mask' shift' ≡ bits_of f mask' shift')
    × (has_bit (with_bits f mask shift v % 256) (2 ^ j) ≡ has_bit f (2 ^ j))

module _ (mask shift mask' shift' : ℕ) where
  field_test-FieldSet :
      (f v j : ℕ)
      → field_test mask shift mask' shift' f v j ≡ true
      → FieldSet mask shift mask' shift' f v j
  unfolding field_test
  field_test-FieldSet f v j h =
      let g = with_bits f mask shift v % 256 in
      ground (arith, same_bool-eq (has_bit g (2 ^ j)) (has_bit f (2 ^ j)))

  with_bits-FieldSet :
      (f v j : ℕ)
      → every (field_rows mask shift mask' shift') 256 ≡ true
      → f < 256
      → v < 4
      → j < 4
      → FieldSet mask shift mask' shift' f v j
  unfolding field_rows
  with_bits-FieldSet f v j table a b c =
      let row = every-lt (field_rows mask shift mask' shift') 256 f table a in
      let cell =
        every-lt (λ v. every (λ j. field_test mask shift mask' shift' f v j) 4) 4 v row b in
      field_test-FieldSet f v j
        (every-lt (λ j. field_test mask shift mask' shift' f v j) 4 j cell c)

-- What `set_flag`, `set_generation` and `set_age` do to the block at `h`.
module _ (hp : Heap) (h : Handle) (inside : h + header_size ≤ hp.len)
    (bytes : IsBytes hp.bytes) where
  flags_after : ℕ → Heap
  flags_after f = write hp (put8 hp.bytes (h + off_flags) f)

  flags-after : (f : ℕ) → flags (flags_after f) h ≡ ok (f % 256)
  unfolding flags_after
  flags-after f = rw (flags-ok (flags_after f) h inside, put8_self)

  -- Over a header in the arena: after `set_flag` of bit `k`, bit `k` reads as written and each other bit as before.
  pub flag-set_flag :
      (k j : ℕ) (on : Bool)
      → k < 8
      → j < 8
      → (hp' : Heap) × (set_flag hp h (2 ^ k) on ≡ ok hp')
        × (flag hp' h (2 ^ j) ≡ (if k == j then ok on else flag hp h (2 ^ j)))
  unfolding flag set_flag flags_after
  flag-set_flag k j on a b =
      let f = flags_at hp.bytes h in
      (
        flags_after (with_bit f (2 ^ k) on),
        rw (flags-ok hp h inside, set_flags-ok hp h inside),
        rw (flags-after (with_bit f (2 ^ k) on), flags-ok hp h inside)
            (ground (arith, has_bit-with_bit f k j on (bytes (h + off_flags)) a b)),
      )

  -- Over a header in the arena, `set_generation` writes a generation below 4, and leaves age and single bits as they were.
  pub generation-set_generation :
      (g j : ℕ)
      → g < 4
      → j < 4
      → (hp' : Heap) × (set_generation hp h g ≡ ok hp')
        × (generation hp' h ≡ ok g)
        × (age hp' h ≡ age hp h)
        × (flag hp' h (2 ^ j) ≡ flag hp h (2 ^ j))
  unfolding generation set_generation age flag flags_after
  generation-set_generation g j a b =
      let f = flags_at hp.bytes h in
      let f' = with_bits f gen_mask gen_shift g in
      let (one, two, three) =
        with_bits-FieldSet gen_mask gen_shift age_mask age_shift f g j generation_table
          (bytes (h + off_flags)) a b in
      (
        flags_after f',
        rw (flags-ok hp h inside, set_flags-ok hp h inside),
        rw (flags-after f') (ap ok one),
        rw (flags-after f', flags-ok hp h inside) (ap ok two),
        rw (flags-after f', flags-ok hp h inside) (ap ok three),
      )

  -- Over a header in the arena, `set_age` writes an age below 4, and leaves generation and single bits as they were.
  pub age-set_age :
      (a j : ℕ)
      → a < 4
      → j < 4
      → (hp' : Heap) × (set_age hp h a ≡ ok hp')
        × (age hp' h ≡ ok a)
        × (generation hp' h ≡ generation hp h)
        × (flag hp' h (2 ^ j) ≡ flag hp h (2 ^ j))
  unfolding generation set_age age flag flags_after
  age-set_age a j small b =
      let f = flags_at hp.bytes h in
      let f' = with_bits f age_mask age_shift a in
      let (one, two, three) =
        with_bits-FieldSet age_mask age_shift gen_mask gen_shift f a j age_table
          (bytes (h + off_flags)) small b in
      (
        flags_after f',
        rw (flags-ok hp h inside, set_flags-ok hp h inside),
        rw (flags-after f') (ap ok one),
        rw (flags-after f', flags-ok hp h inside) (ap ok two),
        rw (flags-after f', flags-ok hp h inside) (ap ok three),
      )
