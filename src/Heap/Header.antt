-- ===== src/Heap/Header.antt =====
-- crates/gc-core/src/heap.rs: the header accessors.
use Prim.Native.Nat.{bit_and, bit_or}
use gc_united.Base.{
  ℕ, ◌+◌, ◌-◌, ◌*◌, ◌/◌, ◌%◌, ◌^◌, Bool, not, if◌then◌else◌, ◌==◌, Exec, ok, ◌>>=◌,
}
use gc_united.Heap.Arena.{
  Heap, Handle, off_size, off_nrefs, off_flags, off_color, off_fwd, off_rc, flag_mark, gen_shift,
  gen_mask, age_shift, age_mask, u8, set_u8, u16, set_u16, u32, set_u32,
}

unfoldable pub size : Heap → Handle → Exec ℕ
size hp h = u32 hp (h + off_size)

unfoldable pub set_size : Heap → Handle → ℕ → Exec Heap
set_size hp h n = set_u32 hp (h + off_size) n

unfoldable pub nrefs : Heap → Handle → Exec ℕ
nrefs hp h = u16 hp (h + off_nrefs)

unfoldable pub set_nrefs : Heap → Handle → ℕ → Exec Heap
set_nrefs hp h n = set_u16 hp (h + off_nrefs) n

unfoldable pub flags : Heap → Handle → Exec ℕ
flags hp h = u8 hp (h + off_flags)

unfoldable pub set_flags : Heap → Handle → ℕ → Exec Heap
set_flags hp h f = set_u8 hp (h + off_flags) f

-- `!m` on a byte.
abbrev pub not8 : ℕ → ℕ
not8 m = 255 - m

-- The bit operations on the flag byte, apart from the access.
unfoldable pub has_bit : ℕ → ℕ → Bool
has_bit f bit = not (bit_and f bit == 0)

unfoldable pub with_bit : ℕ → ℕ → Bool → ℕ
with_bit f bit on = if on then bit_or f bit else bit_and f (not8 bit)

unfoldable pub flag : Heap → Handle → ℕ → Exec Bool
unfolding flags has_bit
flag hp h bit = do f ← flags hp h; ok (has_bit f bit)

unfoldable pub set_flag : Heap → Handle → ℕ → Bool → Exec Heap
unfolding flags set_flags with_bit
set_flag hp h bit on = do f ← flags hp h; set_flags hp h (with_bit f bit on)

unfoldable pub is_marked : Heap → Handle → Exec Bool
unfolding flag
is_marked hp h = flag hp h flag_mark

unfoldable pub set_marked : Heap → Handle → Bool → Exec Heap
unfolding set_flag
set_marked hp h on = set_flag hp h flag_mark on

unfoldable pub color : Heap → Handle → Exec ℕ
color hp h = u8 hp (h + off_color)

unfoldable pub set_color : Heap → Handle → ℕ → Exec Heap
set_color hp h c = set_u8 hp (h + off_color) c

-- A field of the flag byte: `(f & mask) >> shift`, and its replacement.
unfoldable pub bits_of : ℕ → ℕ → ℕ → ℕ
bits_of f mask shift = bit_and f mask / 2 ^ shift

unfoldable pub with_bits : ℕ → ℕ → ℕ → ℕ → ℕ
with_bits f mask shift v = bit_or (bit_and f (not8 mask)) (bit_and (v * 2 ^ shift % 256) mask)

unfoldable pub generation : Heap → Handle → Exec ℕ
unfolding flags bits_of
generation hp h = do f ← flags hp h; ok (bits_of f gen_mask gen_shift)

unfoldable pub set_generation : Heap → Handle → ℕ → Exec Heap
unfolding flags set_flags with_bits
set_generation hp h g = do f ← flags hp h; set_flags hp h (with_bits f gen_mask gen_shift g)

unfoldable pub age : Heap → Handle → Exec ℕ
unfolding flags bits_of
age hp h = do f ← flags hp h; ok (bits_of f age_mask age_shift)

unfoldable pub set_age : Heap → Handle → ℕ → Exec Heap
unfolding flags set_flags with_bits
set_age hp h a = do f ← flags hp h; set_flags hp h (with_bits f age_mask age_shift a)

unfoldable pub forward : Heap → Handle → Exec Handle
forward hp h = u32 hp (h + off_fwd)

unfoldable pub set_forward : Heap → Handle → Handle → Exec Heap
set_forward hp h to = set_u32 hp (h + off_fwd) to

unfoldable pub rc : Heap → Handle → Exec ℕ
rc hp h = u32 hp (h + off_rc)

unfoldable pub set_rc : Heap → Handle → ℕ → Exec Heap
set_rc hp h n = set_u32 hp (h + off_rc) n
