-- ===== src/Heap/Blocks.antt =====
-- crates/gc-core/src/heap.rs: what `emplace`, `emplace_block`, `relocate` and `poison` write.
use gc_united.Base.{ℕ, ◌+◌, ◌^◌, ◌≤◌, ◌<◌, ◌≡◌, ◌∙◌, inl, arith, ok, u32_values}
use gc_united.Heap.Arena.{
  Memory, Heap, header_size, null_addr, off_size, off_nrefs, off_flags, off_color, off_fwd, off_rc,
  white, put8, put16, put32, write, set_u8, set_u16, set_u32,
}
use gc_united.Heap.Place.{write_tail, write_header}
use gc_united.Heap.Words.{
  SameOutside, IsBytes, word16-put16, word32-put32, put8_self, frame16, frame32, put8-SameOutside,
  put16-SameOutside, put32-SameOutside, IsBytes-put8, IsBytes-put16, IsBytes-put32,
}
use gc_united.Heap.Views.{size_at, nrefs_at, flags_at, color_at, fwd_at, rc_at}

-- The header of a block: its words as `write_header` leaves them.
pub record IsHeader (m : Memory) (at n refs f : ℕ) : Type 0 where
  pub sized : size_at m at ≡ n
  pub slots : nrefs_at m at ≡ refs
  pub flagged : flags_at m at ≡ f
  pub colored : color_at m at ≡ white
  pub forwarded : fwd_at m at ≡ null_addr
  pub counted : rc_at m at ≡ 0

module _ (m : Memory) (at n refs f : ℕ) where
  pub header_mem : Memory
  header_mem =
      put32
        (put32
          (put8 (put8 (put16 (put32 m (at + off_size) n) (at + off_nrefs) refs) (at + off_flags) f)
            (at + off_color) white)
          (at + off_fwd) null_addr)
        (at + off_rc) 0

  pub header_mem-SameOutside : SameOutside at (at + header_size) m header_mem
  unfolding header_mem
  header_mem-SameOutside x h =
      put32-SameOutside _ (at + off_rc) 0 at (at + header_size) (omega arith) (omega arith) x h
      ∙ put32-SameOutside _ (at + off_fwd) null_addr at (at + header_size) (omega arith)
          (omega arith) x h
      ∙ put8-SameOutside _ (at + off_color) white at (at + header_size) (omega arith) (omega arith)
          x h
      ∙ put8-SameOutside _ (at + off_flags) f at (at + header_size) (omega arith) (omega arith) x h
      ∙ put16-SameOutside _ (at + off_nrefs) refs at (at + header_size) (omega arith) (omega arith)
          x h
      ∙ put32-SameOutside m (at + off_size) n at (at + header_size) (omega arith) (omega arith) x h

  pub header_mem-IsHeader :
      n < u32_values → refs < 2 ^ 16 → f < 256 → IsHeader header_mem at n refs f
  unfolding header_mem
  header_mem-IsHeader a b c =
      let m1 = put32 m (at + off_size) n in
      let m2 = put16 m1 (at + off_nrefs) refs in
      let m3 = put8 m2 (at + off_flags) f in
      let m4 = put8 m3 (at + off_color) white in
      let m5 = put32 m4 (at + off_fwd) null_addr in
      let s2 =
        put16-SameOutside m1 (at + off_nrefs) refs (at + 4) (at + 16) (omega arith) (omega arith) in
      let s3 =
        put8-SameOutside m2 (at + off_flags) f (at + 6) (at + 16) (omega arith) (omega arith) in
      let s4 =
        put8-SameOutside m3 (at + off_color) white (at + 7) (at + 16) (omega arith) (omega arith) in
      let s5 =
        put32-SameOutside m4 (at + off_fwd) null_addr (at + 8) (at + 16) (omega arith)
          (omega arith) in
      let s6 =
        put32-SameOutside m5 (at + off_rc) 0 (at + 12) (at + 16) (omega arith) (omega arith) in
      record {
        sized =
            frame32 s6 (at + off_size) (inl (omega arith))
            ∙ frame32 s5 (at + off_size) (inl (omega arith))
            ∙ frame32 s4 (at + off_size) (inl (omega arith))
            ∙ frame32 s3 (at + off_size) (inl (omega arith))
            ∙ frame32 s2 (at + off_size) (inl (omega arith))
            ∙ omega (arith, word32-put32 m (at + off_size) n);
        slots =
            frame16 s6 (at + off_nrefs) (inl (omega arith))
            ∙ frame16 s5 (at + off_nrefs) (inl (omega arith))
            ∙ frame16 s4 (at + off_nrefs) (inl (omega arith))
            ∙ frame16 s3 (at + off_nrefs) (inl (omega arith))
            ∙ omega (arith, word16-put16 m1 (at + off_nrefs) refs);
        flagged =
            s6 (at + off_flags) (inl (omega arith))
            ∙ s5 (at + off_flags) (inl (omega arith))
            ∙ s4 (at + off_flags) (inl (omega arith))
            ∙ omega (arith, put8_self m2 (at + off_flags) f);
        colored =
            s6 (at + off_color) (inl (omega arith))
            ∙ s5 (at + off_color) (inl (omega arith))
            ∙ put8_self m3 (at + off_color) white;
        forwarded =
            frame32 s6 (at + off_fwd) (inl (omega arith))
            ∙ word32-put32 m4 (at + off_fwd) null_addr;
        counted = word32-put32 m5 (at + off_rc) 0;
      }

  pub IsBytes-header_mem : IsBytes m → IsBytes header_mem
  unfolding header_mem
  IsBytes-header_mem b = IsBytes-put32 _ _ _ (
      IsBytes-put32 _ _ _
        (IsBytes-put8 _ _ _ (IsBytes-put8 _ _ _ (IsBytes-put16 _ _ _ (IsBytes-put32 _ _ _ b)))))

pub write_header-ok :
    (hp : Heap) (at n refs f : ℕ)
    → at + header_size ≤ hp.len
    → write_header hp at n refs f ≡ ok (write hp (header_mem hp.bytes at n refs f))
unfolding write_header write_tail header_mem set_u32 set_u16 set_u8
write_header-ok hp at n refs f h = ground arith
