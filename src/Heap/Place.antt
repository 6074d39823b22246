-- ===== src/Heap/Place.antt =====
-- crates/gc-core/src/heap.rs: placing, moving and poisoning blocks, and walking over them.
use gc_united.Base.{
  ℕ, zero, suc, ◌+◌, ◌-◌, ◌*◌, ◌^◌, min, Bool, true, false, not, ◌&&◌, ◌||◌, if◌then◌else◌, leb,
  ltb, ◌==◌, List, [], ◌∷◌, Exec, ok, panic, assert, ◌>>=◌, ◌>>◌, add32,
}
use gc_united.Heap.Arena.{
  Memory, Heap, Handle, header_size, null_addr, is_null, off_size, off_nrefs, off_flags, off_color,
  off_fwd, off_rc, flag_free, white, poison_byte, is_aligned, size_for, fill, copy, write, set_u8,
  set_u16, u32, set_u32,
}
use gc_united.Heap.Header.{size, set_flag}

unfoldable pub new : ℕ → Exec Heap
new capacity = do
  assert (leb header_size capacity)
  assert (ltb capacity null_addr)
  assert (is_aligned capacity)
  ok (record { bytes = λ _. 0; len = capacity })

-- `at.saturating_add(size)`
abbrev pub saturating_add : ℕ → ℕ → ℕ
saturating_add a b = min (a + b) (2 ^ 32 - 1)

-- The loop that nulls the `n` slots from `i` on.
unfoldable pub null_slots : Heap → ℕ → ℕ → ℕ → Exec Heap
null_slots hp at i zero = ok hp
null_slots hp at i (suc n) = do
  hp' ← set_u32 hp (at + header_size + 4 * i) null_addr
  null_slots hp' at (suc i) n

-- The header words behind size and slot count.
unfoldable pub write_tail : Heap → ℕ → ℕ → Exec Heap
write_tail hp at f = do
  hp ← set_u8 hp (at + off_flags) f
  hp ← set_u8 hp (at + off_color) white
  hp ← set_u32 hp (at + off_fwd) null_addr
  set_u32 hp (at + off_rc) 0

-- The header of a new object or of a free block.
unfoldable pub write_header : Heap → ℕ → ℕ → ℕ → ℕ → Exec Heap
unfolding write_tail
write_header hp at n refs f = do
  hp ← set_u32 hp (at + off_size) n
  hp ← set_u16 hp (at + off_nrefs) refs
  write_tail hp at f

unfoldable pub emplace : Heap → ℕ → ℕ → ℕ → Exec Heap
unfolding size_for write_header null_slots
emplace hp at refs ndata = do
  n ← size_for refs ndata
  assert (is_aligned at)
  assert (leb (saturating_add at n) hp.len)
  hp ← write_header (write hp (fill hp.bytes at (at + n) 0)) at n refs 0
  null_slots hp at 0 refs

unfoldable pub emplace_block : Heap → ℕ → ℕ → Exec Heap
unfolding write_header
emplace_block hp at n = do
  assert (is_aligned at)
  assert (leb header_size n && is_aligned n)
  assert (leb (saturating_add at n) hp.len)
  write_header hp at n 0 flag_free

unfoldable pub relocate : Heap → Handle → ℕ → Exec Heap
unfolding size
relocate hp from to = do
  n ← size hp from
  assert (is_aligned to)
  assert (leb (to + n) hp.len)
  assert (leb (from + n) hp.len)
  ok (write hp (copy hp.bytes from n to))

-- The slice `bytes[start..end]` is checked before it is filled.
unfoldable pub poison : Heap → Handle → Exec Heap
unfolding size set_flag
poison hp h = do
  n ← size hp h
  assert (leb header_size n && leb (h + n) hp.len)
  set_flag (write hp (fill hp.bytes (h + header_size) (h + n) poison_byte)) h flag_free true

-- `bytes[a..a + n].iter().all(|&b| b == POISON)`
unfoldable pub all_poison : Memory → ℕ → ℕ → Bool
all_poison m a zero = true
all_poison m a (suc n) = (m a == poison_byte) && all_poison m (suc a) n

unfoldable pub is_poisoned : Heap → Handle → Exec Bool
unfolding size all_poison
is_poisoned hp h = do
  n ← size hp h
  if ltb header_size n
      then (do
        assert (leb (h + n) hp.len)
        ok (all_poison hp.bytes (h + header_size) (n - header_size)))
      else ok false

unfoldable pub in_bounds : Heap → Handle → Exec Bool
in_bounds hp h = if is_null h || not (is_aligned h) then ok false else (do
  e ← add32 h header_size
  if ltb hp.len e then ok false else (do
    n ← u32 hp (h + off_size)
    if leb header_size n && is_aligned n
        then (do last ← add32 h n; ok (leb last hp.len))
        else ok false))

-- What the iterator `Walk` yields from `at` to `end`. A round advances by at least `header_size`.
unfoldable pub walk_from : ℕ → Heap → ℕ → ℕ → Exec (List Handle)
unfolding size
walk_from zero hp at end = panic
walk_from (suc fuel) hp at end = do
  next ← add32 at header_size
  if ltb end next then ok [] else (do
    n ← size hp at
    assert (leb header_size n && is_aligned n)
    at' ← add32 at n
    rest ← walk_from fuel hp at' end
    ok (at ∷ rest))

unfoldable pub walk : Heap → ℕ → ℕ → Exec (List Handle)
unfolding walk_from
walk hp from to = walk_from (suc to) hp from to
