-- ===== src/Heap/Arena.antt =====
-- crates/gc-core/src/heap.rs: the arena, its little-endian words, and the constants of the header.
use gc_united.Base.{
  ℕ, ◌+◌, ◌-◌, ◌*◌, ◌/◌, ◌%◌, ◌^◌, Bool, ◌&&◌, if◌then◌else◌, ltb, leb, ◌==◌, Exec, ok, panic,
  ◌>>=◌, add32, mul32, sub_checked,
}

-- The contents of the arena by address. Nothing reads an address from `len` up.
abbrev pub Memory : Type 0
Memory = ℕ → ℕ

pub record Heap : Type 0 where
  pub bytes : Memory
  pub len : ℕ

-- A byte offset into the arena.
abbrev pub Handle : Type 0
Handle = ℕ

abbrev pub header_size : ℕ
header_size = 16

abbrev pub align : ℕ
align = 16

abbrev pub null_addr : ℕ
null_addr = 2 ^ 32 - 1

abbrev pub null : Handle
null = null_addr

abbrev pub is_null : Handle → Bool
is_null h = h == null_addr

abbrev pub off_size : ℕ
off_size = 0

abbrev pub off_nrefs : ℕ
off_nrefs = 4

abbrev pub off_flags : ℕ
off_flags = 6

abbrev pub off_color : ℕ
off_color = 7

abbrev pub off_fwd : ℕ
off_fwd = 8

abbrev pub off_rc : ℕ
off_rc = 12

abbrev pub flag_mark : ℕ
flag_mark = 0b0000_0001

abbrev pub flag_pinned : ℕ
flag_pinned = 0b0000_0010

abbrev pub flag_buffered : ℕ
flag_buffered = 0b0000_0100

abbrev pub flag_free : ℕ
flag_free = 0b0000_1000

abbrev pub gen_shift : ℕ
gen_shift = 4

abbrev pub gen_mask : ℕ
gen_mask = 0b0011_0000

abbrev pub age_shift : ℕ
age_shift = 6

abbrev pub age_mask : ℕ
age_mask = 0b1100_0000

abbrev pub white : ℕ
white = 0

abbrev pub grey : ℕ
grey = 1

abbrev pub black : ℕ
black = 2

abbrev pub poison_byte : ℕ
poison_byte = 0xDE

abbrev pub is_aligned : ℕ → Bool
is_aligned n = (n % align) == 0

-- `(n + ALIGN - 1) & !(ALIGN - 1)`: the mask clears the four low bits.
unfoldable pub align_up : ℕ → Exec ℕ
unfolding add32 sub_checked
align_up n = do t ← add32 n align; s ← sub_checked t 1; ok (s / 2 ^ 4 * 2 ^ 4)

-- Total footprint of an object of this shape.
unfoldable pub size_for : ℕ → ℕ → Exec ℕ
unfolding align_up add32 mul32
size_for nrefs ndata = do
  slots ← mul32 4 nrefs
  body ← add32 header_size slots
  n ← add32 body ndata
  align_up n

-- Little-endian words of a memory.
unfoldable pub word16 : Memory → ℕ → ℕ
word16 m a = m a + 256 * m (a + 1)

unfoldable pub word32 : Memory → ℕ → ℕ
word32 m a = m a + 256 * m (a + 1) + 2 ^ 16 * m (a + 2) + 2 ^ 24 * m (a + 3)

unfoldable pub word64 : Memory → ℕ → ℕ
word64 m a = word32 m a + 2 ^ 32 * word32 m (a + 4)

unfoldable pub put8 : Memory → ℕ → ℕ → Memory
put8 m a v x = if x == a then v % 256 else m x

unfoldable pub put16 : Memory → ℕ → ℕ → Memory
put16 m a v x = if x == a then v % 256 else if x == a + 1 then v / 256 % 256 else m x

unfoldable pub put32 : Memory → ℕ → ℕ → Memory
put32 m a v x =
    if x == a
    then v % 256
    else if x == a + 1
    then v / 256 % 256
    else if x == a + 2
    then v / 2 ^ 16 % 256
    else if x == a + 3
    then v / 2 ^ 24 % 256
    else m x

unfoldable pub put64 : Memory → ℕ → ℕ → Memory
put64 m a v = put32 (put32 m a v) (a + 4) (v / 2 ^ 32)

-- `bytes[s..e].fill(v)` and `bytes.copy_within(from..from + n, to)`, in range.
unfoldable pub fill : Memory → ℕ → ℕ → ℕ → Memory
fill m s e v x = if leb s x && ltb x e then v else m x

unfoldable pub copy : Memory → ℕ → ℕ → ℕ → Memory
copy m from n to x = if leb to x && ltb x (to + n) then m (from + (x - to)) else m x

abbrev pub write : Heap → Memory → Heap
write hp m = record hp { bytes = m }

-- Access with the bounds check of the slice that the source takes. An address is a sum of two or
-- three words; where that would overflow `u32` it lies past the end of any arena, so the check
-- panics too.
unfoldable pub u8 : Heap → ℕ → Exec ℕ
u8 hp o = if ltb o hp.len then ok (hp.bytes o) else panic

unfoldable pub set_u8 : Heap → ℕ → ℕ → Exec Heap
set_u8 hp o v = if ltb o hp.len then ok (write hp (put8 hp.bytes o v)) else panic

unfoldable pub u16 : Heap → ℕ → Exec ℕ
u16 hp o = if leb (o + 2) hp.len then ok (word16 hp.bytes o) else panic

unfoldable pub set_u16 : Heap → ℕ → ℕ → Exec Heap
set_u16 hp o v = if leb (o + 2) hp.len then ok (write hp (put16 hp.bytes o v)) else panic

unfoldable pub u32 : Heap → ℕ → Exec ℕ
u32 hp o = if leb (o + 4) hp.len then ok (word32 hp.bytes o) else panic

unfoldable pub set_u32 : Heap → ℕ → ℕ → Exec Heap
set_u32 hp o v = if leb (o + 4) hp.len then ok (write hp (put32 hp.bytes o v)) else panic
