-- ===== src/Heap/Emplace.antt =====
-- crates/gc-core/src/heap.rs: `emplace` lays out a fresh object, `emplace_block` a free block.
use gc_united.Base.{
  ℕ, zero, suc, ◌+◌, ◌-◌, ◌*◌, ◌%◌, ◌^◌, ◌≤◌, ◌<◌, ◌≡◌, refl, ◌∙◌, ◌⊎◌, inl, arith, ℕ_discrete, min,
  true, ok, u32_values, leb, ◌&&◌,
}
use gc_united.Heap.Arena.{
  Memory, Heap, header_size, align, null_addr, is_aligned, flag_free, put32, fill, write, size_for,
}
use gc_united.Heap.Place.{null_slots, emplace, emplace_block}
use gc_united.Heap.Sizes.{size_for-IsFootprint}
use gc_united.Heap.Words.{
  SameOutside, IsBytes, word32-put32, frame16, frame32, put32-SameOutside, fill-SameOutside,
  fill-inside, IsBytes-put32, IsBytes-fill,
}
use gc_united.Heap.Blocks.{
  IsHeader, header_mem, header_mem-SameOutside, header_mem-IsHeader, IsBytes-header_mem,
  write_header-ok,
}
use gc_united.Heap.Views.{slot_at, set_u32-ok}

-- The memory after the loop that nulls `n` slots from `i` on.
pub nulled : Memory → ℕ → ℕ → ℕ → Memory
nulled m at i zero = m
nulled m at i (suc n) = nulled (put32 m (at + header_size + 4 * i) null_addr) at (suc i) n

module _ (at : ℕ) where
  pub null_slots-ok :
      (n i : ℕ) (hp : Heap)
      → at + header_size + 4 * (i + n) ≤ hp.len
      → null_slots hp at i n ≡ ok (write hp (nulled hp.bytes at i n))
  unfolding null_slots nulled
  null_slots-ok zero i hp h = refl
  null_slots-ok (suc n) i hp h =
      rw (set_u32-ok hp (at + header_size + 4 * i) null_addr (omega arith)) (
        null_slots-ok n (suc i) (write hp (put32 hp.bytes (at + header_size + 4 * i) null_addr))
          (omega arith))

  pub nulled-SameOutside :
      (n i : ℕ) (m : Memory)
      → SameOutside (at + header_size + 4 * i) (at + header_size + 4 * (i + n)) m (nulled m at i n)
  unfolding nulled
  nulled-SameOutside zero i m x h = refl
  nulled-SameOutside (suc n) i m x h =
      let o = at + header_size + 4 * i in
      nulled-SameOutside n (suc i) (put32 m o null_addr) x (ground arith)
      ∙ put32-SameOutside m o null_addr o (at + header_size + 4 * (i + suc n)) (omega arith)
          (omega arith) x h

  pub nulled-slot :
      (n i : ℕ) (m : Memory) (j : ℕ)
      → i ≤ j
      → j < i + n
      → slot_at (nulled m at i n) at j ≡ null_addr
  unfolding nulled
  nulled-slot zero i m j p q = absurd (omega arith)
  nulled-slot (suc n) i m j p q =
      let m1 = put32 m (at + header_size + 4 * i) null_addr in
      elim (ℕ_discrete i j) [
        | yes e ↦
            frame32 (nulled-SameOutside n (suc i) m1) (at + header_size + 4 * j) (inl (omega arith))
            ∙ rw e (word32-put32 m (at + header_size + 4 * j) null_addr)
        | no ne ↦ nulled-slot n (suc i) m1 j (omega arith) (omega arith)
      ]

  pub IsBytes-nulled : (n i : ℕ) (m : Memory) → IsBytes m → IsBytes (nulled m at i n)
  unfolding nulled
  IsBytes-nulled zero i m b = b
  IsBytes-nulled (suc n) i m b = IsBytes-nulled n (suc i) _ (IsBytes-put32 _ _ _ b)

-- A fresh object at `at`: `m'` is `m` but for the footprint, which holds a clean header, null
-- slots and a zero payload.
pub record IsFresh (m m' : Memory) (at n refs : ℕ) : Type 0 where
  pub header : IsHeader m' at n refs 0
  pub slots : (j : ℕ) → j < refs → slot_at m' at j ≡ null_addr
  pub payload : (x : ℕ) → at + header_size + 4 * refs ≤ x → x < at + n → m' x ≡ 0
  pub outside : SameOutside at (at + n) m m'
  pub bytes : IsBytes m → IsBytes m'

-- A header survives any change behind it.
pub IsHeader-frame :
    {m m' : Memory} {lo hi : ℕ} (s : SameOutside lo hi m m') (at n refs f : ℕ)
    → (at + header_size ≤ lo) ⊎ (hi ≤ at)
    → IsHeader m at n refs f
    → IsHeader m' at n refs f
IsHeader-frame s at n refs f h b = record {
  sized = frame32 s _ (ground arith) ∙ b.sized;
  slots = frame16 s _ (ground arith) ∙ b.slots;
  flagged = s _ (ground arith) ∙ b.flagged;
  colored = s _ (ground arith) ∙ b.colored;
  forwarded = frame32 s _ (ground arith) ∙ b.forwarded;
  counted = frame32 s _ (ground arith) ∙ b.counted;
}

module _ (m : Memory) (at n refs : ℕ) where
  pub emplaced : Memory
  emplaced = nulled (header_mem (fill m at (at + n) 0) at n refs 0) at 0 refs

  pub emplaced-IsFresh :
      n < u32_values → refs < 2 ^ 16 → header_size + 4 * refs ≤ n → IsFresh m emplaced at n refs
  unfolding emplaced
  emplaced-IsFresh a b c =
      let m1 = fill m at (at + n) 0 in
      let m2 = header_mem m1 at n refs 0 in
      let s1 = fill-SameOutside m at (at + n) 0 at (at + n) (omega arith) (omega arith) in
      let s2 = header_mem-SameOutside m1 at n refs 0 in
      let s3 = nulled-SameOutside at refs 0 m2 in
      record {
        header =
            IsHeader-frame s3 at n refs 0 (inl (omega arith))
              (header_mem-IsHeader m1 at n refs 0 a b (omega arith));
        slots = λ j h. nulled-slot at refs 0 m2 j (omega arith) (omega arith);
        payload = λ x p q.
            s3 x (ground arith)
            ∙ s2 x (ground arith)
            ∙ fill-inside m at (at + n) 0 x (omega arith) q;
        outside = λ x h. s3 x (ground arith) ∙ s2 x (ground arith) ∙ s1 x h;
        bytes = λ h.
            IsBytes-nulled at refs 0 m2
              (IsBytes-header_mem m1 at n refs 0 (IsBytes-fill m at (at + n) 0 (omega arith) h));
      }

-- Where the request is in range, aligned and fits, `emplace` returns the arena with a fresh object
-- of the footprint that `size_for` gives, and nothing else changed.
pub emplace-IsFresh :
    (hp : Heap) (at refs ndata n : ℕ)
    → size_for refs ndata ≡ ok n
    → refs < 2 ^ 16
    → at % align ≡ 0
    → at + n ≤ hp.len
    → hp.len < null_addr
    → (m' : Memory) × (emplace hp at refs ndata ≡ ok (write hp m')) × IsFresh hp.bytes m' at n refs
unfolding emplace emplaced
emplace-IsFresh hp at refs ndata n sized small aligned room addressable =
    let print = size_for-IsFootprint refs ndata n sized in
    let al : is_aligned at ≡ true = ground arith in
    let fits : leb (min (at + n) (2 ^ 32 - 1)) hp.len ≡ true = ground arith in
    let m1 = fill hp.bytes at (at + n) 0 in
    (
      emplaced hp.bytes at n refs,
      rw (sized, al, fits, write_header-ok (write hp m1) at n refs 0 (omega arith))
          (null_slots-ok at refs 0 (write hp (header_mem m1 at n refs 0)) (omega arith)),
      emplaced-IsFresh hp.bytes at n refs print.fits small (omega arith),
    )

-- Where the block is aligned, holds a header and fits, `emplace_block` writes the header of a free block and nothing else.
pub emplace_block-IsHeader :
    (hp : Heap) (at n : ℕ)
    → at % align ≡ 0
    → header_size ≤ n
    → n % align ≡ 0
    → at + n ≤ hp.len
    → hp.len < null_addr
    → (m' : Memory) × (emplace_block hp at n ≡ ok (write hp m'))
      × IsHeader m' at n 0 flag_free
      × SameOutside at (at + header_size) hp.bytes m'
      × (IsBytes hp.bytes → IsBytes m')
unfolding emplace_block
emplace_block-IsHeader hp at n aligned big whole room addressable =
    let al : is_aligned at ≡ true = ground arith in
    let good : (leb header_size n && is_aligned n) ≡ true = ground arith in
    let fits : leb (min (at + n) (2 ^ 32 - 1)) hp.len ≡ true = ground arith in
    (
      header_mem hp.bytes at n 0 flag_free,
      rw (al, good, fits) (write_header-ok hp at n 0 flag_free (omega arith)),
      header_mem-IsHeader hp.bytes at n 0 flag_free (omega arith) (omega arith) (omega arith),
      header_mem-SameOutside hp.bytes at n 0 flag_free,
      IsBytes-header_mem hp.bytes at n 0 flag_free,
    )
