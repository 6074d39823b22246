-- ===== src/Heap/Sizes.antt =====
-- crates/gc-core/src/heap.rs: `align_up` and `size_for`.
use gc_united.Base.{
  ℕ, ◌+◌, ◌*◌, ◌/◌, ◌%◌, ◌≤◌, ◌<◌, ◌≡◌, arith, ok, panic, u32_values, add32, mul32, sub_checked,
}
use gc_united.Heap.Arena.{align, header_size, align_up, size_for}

-- The bytes that an object holds before padding.
abbrev pub content : ℕ → ℕ → ℕ
content nrefs ndata = header_size + 4 * nrefs + ndata

-- `align_up` gives the least multiple of 16 from its argument up, where the sum fits in `u32`, and
-- panics elsewhere.
pub align_up-ok : (n : ℕ) → n + align < u32_values → align_up n ≡ ok ((n + 15) / 16 * 16)
unfolding align_up add32 sub_checked
align_up-ok n h = ground arith

align_up-panic : (n : ℕ) → u32_values ≤ n + align → align_up n ≡ panic
unfolding align_up add32 sub_checked
align_up-panic n h = ground arith

pub size_for-ok :
    (nrefs ndata : ℕ)
    → content nrefs ndata + align < u32_values
    → size_for nrefs ndata ≡ ok ((content nrefs ndata + 15) / 16 * 16)
unfolding size_for align_up add32 mul32 sub_checked
size_for-ok nrefs ndata h = ground arith

pub size_for-panic :
    (nrefs ndata : ℕ) → u32_values ≤ content nrefs ndata + align → size_for nrefs ndata ≡ panic
unfolding size_for align_up add32 mul32 sub_checked
size_for-panic nrefs ndata h = ground arith

pub record IsFootprint (nrefs ndata n : ℕ) : Type 0 where
  pub aligned : n % align ≡ 0
  pub holds : content nrefs ndata ≤ n
  pub tight : n < content nrefs ndata + align
  pub fits : n < u32_values

-- When `size_for` returns, the footprint is a multiple of 16, holds header, slots and payload with
-- less than 16 bytes of padding, and fits in `u32`.
pub size_for-IsFootprint :
    (nrefs ndata n : ℕ) → size_for nrefs ndata ≡ ok n → IsFootprint nrefs ndata n
unfolding size_for align_up add32 mul32 sub_checked
size_for-IsFootprint nrefs ndata n h = ground arith
