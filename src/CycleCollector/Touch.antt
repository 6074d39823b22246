-- ===== src/CycleCollector/Touch.antt =====
-- Writes to the count, the colour and the buffered flag of a block of a space.
use gc_united.Base.{
  ℕ, ◌+◌, ◌≤◌, ◌<◌, ◌≡◌, refl, subst, ◌∙◌, ap, inl, inr, arith, Bool, true, false, List, has,
  u32_values,
}
use gc_united.Heap.{
  Handle, header_size, is_null, off_rc, off_color, off_flags, flag_buffered, flag_free, has_bit,
  with_bit, put8, put32,
}
use gc_united.Heap.Words.{
  SameOutside, IsBytes-put8, IsBytes-put32, word32-put32, put8-SameOutside, put32-SameOutside,
  SameOutside-wider, frame32, put8_self,
}
use gc_united.Heap.Views.{rc_at, flags_at}
use gc_united.Heap.Flags.{has_bit-with_bit}
use gc_united.Heap.Chain.{free_at}
use gc_united.Space.{FreeListSpace}
use gc_united.Space.Invariant.{IsSpace}
use gc_united.Space.Alloc.{inside_of_has}
use gc_united.Space.Poke.{over, IsSpace-over, IsSpace-over_flags}

-- `s'` is `s` with the count of `h` set to `n`, where colour and flags of `h` may have changed too,
-- except that the block is as free or live as it was.
pub record IsTouched (s s' : FreeListSpace) (bs : List Handle) (h n : ℕ) : Type 0 where
  pub space : IsSpace s' bs
  pub count : rc_at s'.heap.bytes h ≡ n
  pub same : SameOutside (h + off_flags) (h + header_size) s.heap.bytes s'.heap.bytes
  pub freed : free_at s'.heap.bytes h ≡ free_at s.heap.bytes h
  pub rest : s' ≡ over s s'.heap.bytes

module _ {s : FreeListSpace} {bs : List Handle} (is : IsSpace s bs) (h : Handle)
    (member : has h bs ≡ true) where
  pub header_inside : h + header_size ≤ s.heap.len
  header_inside =
      let (_, inside, block) = inside_of_has is h member in
      let big = block.big in let within = is.within in omega arith

  pub not_null : is_null h ≡ false
  not_null = let room = header_inside in let small = is.addressable in ground arith

  pub touch_rc :
      (n : ℕ) → n < u32_values → IsTouched s (over s (put32 s.heap.bytes (h + off_rc) n)) bs h n
  touch_rc n small =
      let m = s.heap.bytes in
      let (_, inside, block) = inside_of_has is h member in
      let big = block.big in
      let change =
        put32-SameOutside m (h + off_rc) n (h + 8) (h + header_size) (omega arith) (omega arith) in
      record {
        space =
            IsSpace-over h is member change (IsBytes-put32 m (h + off_rc) n is.bytes) (omega arith)
              (omega arith);
        count = omega (arith, word32-put32 m (h + off_rc) n);
        same = SameOutside-wider change _ _ (omega arith) (omega arith);
        freed = ap (λ f. has_bit f flag_free) (change (h + off_flags) (inl (omega arith)));
        rest = refl;
      }

  pub touch_color :
      (c : ℕ)
      → IsTouched s (over s (put8 s.heap.bytes (h + off_color) c)) bs h (rc_at s.heap.bytes h)
  touch_color c =
      let m = s.heap.bytes in
      let (_, inside, block) = inside_of_has is h member in
      let big = block.big in
      let change =
        put8-SameOutside m (h + off_color) c (h + 7) (h + 8) (omega arith) (omega arith) in
      record {
        space =
            IsSpace-over h is member change (IsBytes-put8 m (h + off_color) c is.bytes)
              (omega arith) (omega arith);
        count = frame32 change (h + off_rc) (inr (omega arith));
        same = SameOutside-wider change _ _ (omega arith) (omega arith);
        freed = ap (λ f. has_bit f flag_free) (change (h + off_flags) (inl (omega arith)));
        rest = refl;
      }

  pub touch_buffered :
      (on : Bool)
      → IsTouched s
          (over s (
            put8 s.heap.bytes
              (h + off_flags)
              (with_bit (flags_at s.heap.bytes h) flag_buffered on)))
          bs
          h
          (rc_at s.heap.bytes h)
  touch_buffered on =
      let m = s.heap.bytes in
      let f = with_bit (flags_at m h) flag_buffered on in
      let (_, inside, block) = inside_of_has is h member in
      let big = block.big in
      let change =
        put8-SameOutside m (h + off_flags) f (h + 6) (h + 7) (omega arith) (omega arith) in
      let freed : free_at (put8 m (h + off_flags) f) h ≡ free_at m h =
        rw (put8_self m (h + off_flags) f) (
          has_bit-with_bit (flags_at m h) 2 3 on (is.bytes (h + off_flags)) (omega arith)
            (omega arith)) in
      record {
        space =
            IsSpace-over_flags h is member change (IsBytes-put8 m (h + off_flags) f is.bytes)
              (omega arith) (omega arith) freed;
        count = frame32 change (h + off_rc) (inr (omega arith));
        same = SameOutside-wider change _ _ (omega arith) (omega arith);
        freed = freed;
        rest = refl;
      }

-- One write after another.
pub IsTouched-trans :
    {s s' s'' : FreeListSpace} {bs : List Handle} {h n k : ℕ}
    → IsTouched s s' bs h n
    → IsTouched s' s'' bs h k
    → IsTouched s s'' bs h k
IsTouched-trans {s} {s''} a b = record {
  space = b.space;
  count = b.count;
  same = λ x o. b.same x o ∙ a.same x o;
  freed = b.freed ∙ a.freed;
  rest = b.rest ∙ ap (λ t. over t s''.heap.bytes) a.rest;
}

pub IsTouched-count :
    {s s' : FreeListSpace} {bs : List Handle} {h n k : ℕ}
    → n ≡ k
    → IsTouched s s' bs h n
    → IsTouched s s' bs h k
IsTouched-count {s} {s'} {bs} {h} e t = subst (IsTouched s s' bs h) e t

pub IsTouched-refl :
    {s : FreeListSpace} {bs : List Handle} (h : Handle)
    → IsSpace s bs
    → IsTouched s s bs h (rc_at s.heap.bytes h)
IsTouched-refl h is = record {
  space = is;
  count = refl;
  same = λ x o. refl;
  freed = refl;
  rest = refl;
}
