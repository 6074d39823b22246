-- ===== src/Heap/Views.antt =====
-- The header and the slots of a block as functions of the memory, and the accessors in range.
use gc_united.Base.{ℕ, ◌+◌, ◌*◌, ◌≤◌, ◌<◌, ◌≡◌, Bool, arith, ok, le→leb, lt→ltb}
use gc_united.Heap.Arena.{
  Memory, Heap, Handle, header_size, off_size, off_nrefs, off_flags, off_color, off_fwd, off_rc,
  word16, word32, put8, put16, put32, write, u8, set_u8, u16, set_u16, u32, set_u32,
}
use gc_united.Heap.Header.{
  size, nrefs, flags, color, forward, rc, set_nrefs, set_flags, set_color, set_forward, set_rc,
  has_bit, with_bit, flag, set_flag,
}
use gc_united.Heap.Payload.{field, set_field}

module _ (m : Memory) (h : Handle) where
  abbrev pub size_at : ℕ
  size_at = word32 m (h + off_size)

  abbrev pub nrefs_at : ℕ
  nrefs_at = word16 m (h + off_nrefs)

  abbrev pub flags_at : ℕ
  flags_at = m (h + off_flags)

  abbrev pub color_at : ℕ
  color_at = m (h + off_color)

  abbrev pub fwd_at : ℕ
  fwd_at = word32 m (h + off_fwd)

  abbrev pub rc_at : ℕ
  rc_at = word32 m (h + off_rc)

abbrev pub slot_at : Memory → Handle → ℕ → ℕ
slot_at m h i = word32 m (h + header_size + 4 * i)

module _ (hp : Heap) (o : ℕ) where
  pub u8-ok : o < hp.len → u8 hp o ≡ ok (hp.bytes o)
  unfolding u8
  u8-ok p = rw (lt→ltb o hp.len p)

  pub u16-ok : o + 2 ≤ hp.len → u16 hp o ≡ ok (word16 hp.bytes o)
  unfolding u16
  u16-ok p = rw (le→leb (o + 2) hp.len p)

  pub u32-ok : o + 4 ≤ hp.len → u32 hp o ≡ ok (word32 hp.bytes o)
  unfolding u32
  u32-ok p = rw (le→leb (o + 4) hp.len p)

  pub set_u8-ok : (v : ℕ) → o < hp.len → set_u8 hp o v ≡ ok (write hp (put8 hp.bytes o v))
  unfolding set_u8
  set_u8-ok v p = rw (lt→ltb o hp.len p)

  pub set_u16-ok : (v : ℕ) → o + 2 ≤ hp.len → set_u16 hp o v ≡ ok (write hp (put16 hp.bytes o v))
  unfolding set_u16
  set_u16-ok v p = rw (le→leb (o + 2) hp.len p)

  pub set_u32-ok : (v : ℕ) → o + 4 ≤ hp.len → set_u32 hp o v ≡ ok (write hp (put32 hp.bytes o v))
  unfolding set_u32
  set_u32-ok v p = rw (le→leb (o + 4) hp.len p)

module _ (hp : Heap) (h : Handle) (inside : h + header_size ≤ hp.len) where
  pub size-ok : size hp h ≡ ok (size_at hp.bytes h)
  unfolding size
  size-ok = u32-ok hp (h + off_size) (omega arith)

  pub nrefs-ok : nrefs hp h ≡ ok (nrefs_at hp.bytes h)
  unfolding nrefs
  nrefs-ok = u16-ok hp (h + off_nrefs) (omega arith)

  pub flags-ok : flags hp h ≡ ok (flags_at hp.bytes h)
  unfolding flags
  flags-ok = u8-ok hp (h + off_flags) (omega arith)

  pub color-ok : color hp h ≡ ok (color_at hp.bytes h)
  unfolding color
  color-ok = u8-ok hp (h + off_color) (omega arith)

  pub forward-ok : forward hp h ≡ ok (fwd_at hp.bytes h)
  unfolding forward
  forward-ok = u32-ok hp (h + off_fwd) (omega arith)

  pub rc-ok : rc hp h ≡ ok (rc_at hp.bytes h)
  unfolding rc
  rc-ok = u32-ok hp (h + off_rc) (omega arith)

  pub set_nrefs-ok : (v : ℕ) → set_nrefs hp h v ≡ ok (write hp (put16 hp.bytes (h + off_nrefs) v))
  unfolding set_nrefs
  set_nrefs-ok v = set_u16-ok hp (h + off_nrefs) v (omega arith)

  pub set_flags-ok : (v : ℕ) → set_flags hp h v ≡ ok (write hp (put8 hp.bytes (h + off_flags) v))
  unfolding set_flags
  set_flags-ok v = set_u8-ok hp (h + off_flags) v (omega arith)

  pub set_color-ok : (v : ℕ) → set_color hp h v ≡ ok (write hp (put8 hp.bytes (h + off_color) v))
  unfolding set_color
  set_color-ok v = set_u8-ok hp (h + off_color) v (omega arith)

  pub set_forward-ok : (v : ℕ) → set_forward hp h v ≡ ok (write hp (put32 hp.bytes (h + off_fwd) v))
  unfolding set_forward
  set_forward-ok v = set_u32-ok hp (h + off_fwd) v (omega arith)

  pub set_rc-ok : (v : ℕ) → set_rc hp h v ≡ ok (write hp (put32 hp.bytes (h + off_rc) v))
  unfolding set_rc
  set_rc-ok v = set_u32-ok hp (h + off_rc) v (omega arith)

  pub flag-ok : (bit : ℕ) → flag hp h bit ≡ ok (has_bit (flags_at hp.bytes h) bit)
  unfolding flag
  flag-ok bit = rw flags-ok

  pub set_flag-ok :
      (bit : ℕ) (on : Bool)
      → set_flag hp h bit on
        ≡ ok (write hp (put8 hp.bytes (h + off_flags) (with_bit (flags_at hp.bytes h) bit on)))
  unfolding set_flag
  set_flag-ok bit on = rw (flags-ok, set_flags-ok)

  module _ (i : ℕ) (has : i < nrefs_at hp.bytes h)
      (room : h + header_size + 4 * i + 4 ≤ hp.len) where
    pub field-ok : field hp h i ≡ ok (slot_at hp.bytes h i)
    unfolding field
    field-ok = rw (nrefs-ok, lt→ltb _ _ has) (u32-ok hp (h + header_size + 4 * i) room)

    pub set_field-ok :
        (v : Handle)
        → set_field hp h i v ≡ ok (write hp (put32 hp.bytes (h + header_size + 4 * i) v))
    unfolding set_field
    set_field-ok v = rw (nrefs-ok, lt→ltb _ _ has) (set_u32-ok hp (h + header_size + 4 * i) v room)
