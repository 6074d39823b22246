-- ===== src/Heap/Payload.antt =====
-- crates/gc-core/src/heap.rs: reference slots and scalar payload.
use gc_united.Base.{
  ℕ, zero, suc, ◌+◌, ◌-◌, ◌*◌, if◌then◌else◌, leb, ltb, ◌&&◌, List, [], ◌∷◌, Exec, ok, assert,
  ◌>>=◌, ◌>>◌,
}
use gc_united.Heap.Arena.{
  Heap, Handle, header_size, is_null, u32, set_u32, word32, word64, put32, put64, write,
}
use gc_united.Heap.Header.{size, nrefs}

-- The `debug_assert!` of the source comes first.
unfoldable pub field : Heap → Handle → ℕ → Exec Handle
unfolding nrefs
field hp h i = do n ← nrefs hp h; assert (ltb i n); u32 hp (h + header_size + 4 * i)

unfoldable pub set_field : Heap → Handle → ℕ → Handle → Exec Heap
unfolding nrefs
set_field hp h i v = do n ← nrefs hp h; assert (ltb i n); set_u32 hp (h + header_size + 4 * i) v

-- The non-null slots among the `n` from `i` on.
unfoldable pub children_from : Heap → Handle → ℕ → ℕ → Exec (List Handle)
unfolding field
children_from hp h i zero = ok []
children_from hp h i (suc n) = do
  c ← field hp h i
  cs ← children_from hp h (suc i) n
  ok (if is_null c then cs else c ∷ cs)

unfoldable pub children : Heap → Handle → Exec (List Handle)
unfolding nrefs children_from
children hp h = do n ← nrefs hp h; children_from hp h 0 n

unfoldable pub data_offset : Heap → Handle → Exec ℕ
unfolding nrefs
data_offset hp h = do n ← nrefs hp h; ok (h + header_size + 4 * n)

-- The range of the slice `data(h)`, after its bounds check.
unfoldable pub data_range : Heap → Handle → Exec (ℕ × ℕ)
unfolding data_offset size
data_range hp h = do
  s ← data_offset hp h
  n ← size hp h
  assert (leb s (h + n) && leb (h + n) hp.len)
  ok (s, h + n)

unfoldable pub data_u64 : Heap → Handle → ℕ → Exec ℕ
unfolding data_range
data_u64 hp h off = do
  (s, e) ← data_range hp h
  assert (leb (off + 8) (e - s))
  ok (word64 hp.bytes (s + off))

unfoldable pub set_data_u64 : Heap → Handle → ℕ → ℕ → Exec Heap
unfolding data_range
set_data_u64 hp h off v = do
  (s, e) ← data_range hp h
  assert (leb (off + 8) (e - s))
  ok (write hp (put64 hp.bytes (s + off) v))

unfoldable pub data_u32 : Heap → Handle → ℕ → Exec ℕ
unfolding data_range
data_u32 hp h off = do
  (s, e) ← data_range hp h
  assert (leb (off + 4) (e - s))
  ok (word32 hp.bytes (s + off))

unfoldable pub set_data_u32 : Heap → Handle → ℕ → ℕ → Exec Heap
unfolding data_range
set_data_u32 hp h off v = do
  (s, e) ← data_range hp h
  assert (leb (off + 4) (e - s))
  ok (write hp (put32 hp.bytes (s + off) v))
