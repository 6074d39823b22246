-- ===== src/Heap/Moves.antt =====
-- crates/gc-core/src/heap.rs: `relocate` copies a block, `poison` wipes one.
use gc_united.Base.{
  ℕ, zero, suc, ◌+◌, ◌-◌, ◌%◌, ◌≤◌, ◌<◌, ◌≡◌, refl, ◌∙◌, arith, true, ok, le→leb, ltb,
}
use gc_united.Heap.Arena.{
  Memory, Heap, Handle, header_size, align, is_aligned, flag_free, off_flags, put8, copy, fill,
  write, poison_byte,
}
use gc_united.Heap.Header.{with_bit}
use gc_united.Heap.Place.{relocate, poison, is_poisoned, all_poison}
use gc_united.Heap.Words.{
  SameOutside, IsBytes, frame16, frame32, put8-SameOutside, put8_self, fill-SameOutside,
  fill-inside, copy-SameOutside, copy-inside, IsBytes-put8, IsBytes-fill,
}
use gc_united.Heap.Views.{
  size_at, nrefs_at, flags_at, color_at, fwd_at, rc_at, size-ok, set_flag-ok,
}

-- Where source and destination lie in the arena and the destination is aligned, `relocate` moves
-- every byte of the block, header included, even where source and destination
-- overlap, and leaves all else.
pub relocate-copies :
    (hp : Heap) (from to : ℕ)
    → from + header_size ≤ hp.len
    → from + size_at hp.bytes from ≤ hp.len
    → to % align ≡ 0
    → to + size_at hp.bytes from ≤ hp.len
    → (m' : Memory) × (relocate hp from to ≡ ok (write hp m'))
      × ((i : ℕ) → i < size_at hp.bytes from → m' (to + i) ≡ hp.bytes (from + i))
      × SameOutside to (to + size_at hp.bytes from) hp.bytes m'
unfolding relocate
relocate-copies hp from to inside source aligned room =
    let al : is_aligned to ≡ true = ground arith in
    let n = size_at hp.bytes from in
    (
      copy hp.bytes from n to,
      rw (size-ok hp from inside, al, le→leb (to + n) hp.len room, le→leb (from + n) hp.len source),
      copy-inside hp.bytes from n to,
      copy-SameOutside hp.bytes from n to,
    )

all_poison-fill :
    (k a : ℕ) (m : Memory)
    → ((x : ℕ) → a ≤ x → x < a + k → m x ≡ poison_byte)
    → all_poison m a k ≡ true
unfolding all_poison
all_poison-fill zero a m h = refl
all_poison-fill (suc k) a m h =
    rw (h a (omega arith) (omega arith))
      (all_poison-fill k (suc a) m (λ x p q. h x (omega arith) (omega arith)))

-- A poisoned block: the payload is the pattern, the block is flagged free, and size, slot count,
-- forwarding address and reference count stay for the sweep.
pub record IsWiped (m m' : Memory) (h n : ℕ) : Type 0 where
  pub payload : (x : ℕ) → h + header_size ≤ x → x < h + n → m' x ≡ poison_byte
  pub flagged : flags_at m' h ≡ with_bit (flags_at m h) flag_free true % 256
  pub sized : size_at m' h ≡ size_at m h
  pub slots : nrefs_at m' h ≡ nrefs_at m h
  pub colored : color_at m' h ≡ color_at m h
  pub forwarded : fwd_at m' h ≡ fwd_at m h
  pub counted : rc_at m' h ≡ rc_at m h
  pub outside : SameOutside h (h + n) m m'
  pub bytes : IsBytes m → IsBytes m'

module _ (m : Memory) (h n : ℕ) where
  pub wiped : Memory
  wiped =
      let m1 = fill m (h + header_size) (h + n) poison_byte in
      put8 m1 (h + off_flags) (with_bit (flags_at m1 h) flag_free true)

  pub wiped-IsWiped : header_size ≤ n → IsWiped m wiped h n
  unfolding wiped
  wiped-IsWiped big =
      let m1 = fill m (h + header_size) (h + n) poison_byte in
      let f = with_bit (flags_at m1 h) flag_free true in
      let s1 =
        fill-SameOutside m (h + header_size) (h + n) poison_byte (h + header_size) (h + n)
          (omega arith) (omega arith) in
      let s2 = put8-SameOutside m1 (h + off_flags) f (h + 6) (h + 7) (omega arith) (omega arith) in
      record {
        payload = λ x p q.
            s2 x (ground arith) ∙ fill-inside m (h + header_size) (h + n) poison_byte x p q;
        flagged = rw (← s1 (h + off_flags) (ground arith)) (put8_self m1 (h + off_flags) f);
        sized = frame32 s2 _ (ground arith) ∙ frame32 s1 _ (ground arith);
        slots = frame16 s2 _ (ground arith) ∙ frame16 s1 _ (ground arith);
        colored = s2 _ (ground arith) ∙ s1 _ (ground arith);
        forwarded = frame32 s2 _ (ground arith) ∙ frame32 s1 _ (ground arith);
        counted = frame32 s2 _ (ground arith) ∙ frame32 s1 _ (ground arith);
        outside = λ x o. s2 x (ground arith) ∙ s1 x (ground arith);
        bytes = λ b. IsBytes-put8 _ _ _ (IsBytes-fill _ _ _ _ (omega arith) b);
      }

-- Over a block that lies in the arena, `poison` wipes exactly the block, and `is_poisoned` then says whether it has a payload at all.
pub poison-IsWiped :
    (hp : Heap) (h : Handle)
    → header_size ≤ size_at hp.bytes h
    → h + size_at hp.bytes h ≤ hp.len
    → (m' : Memory) × (poison hp h ≡ ok (write hp m'))
      × IsWiped hp.bytes m' h (size_at hp.bytes h)
      × (is_poisoned (write hp m') h ≡ ok (ltb header_size (size_at hp.bytes h)))
unfolding poison is_poisoned wiped
poison-IsWiped hp h big room =
    let n = size_at hp.bytes h in
    let m1 = fill hp.bytes (h + header_size) (h + n) poison_byte in
    let m' = wiped hp.bytes h n in
    let is = wiped-IsWiped hp.bytes h n big in
    let whole =
      all_poison-fill (n - header_size) (h + header_size) m'
        (λ x p q. is.payload x p (omega arith)) in
    (
      m',
      rw (size-ok hp h (omega arith), le→leb header_size n big, le→leb (h + n) hp.len room)
          (set_flag-ok (write hp m1) h (omega arith) flag_free true),
      is,
      rw (size-ok (write hp m') h (omega arith), is.sized, le→leb (h + n) hp.len room, whole)
          (ground arith),
    )
