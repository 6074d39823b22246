-- ===== src/SemiSpace/Copy.antt =====
-- crates/gc-mod06/src/lib.rs: what `copy_object` does with an object of the half that is left.
use gc_united.Base.{
  ℕ, ◌+◌, ◌%◌, ◌≤◌, ◌<◌, ◌≡◌, ◌≢◌, refl, ◌∙◌, ap, ◌⊎◌, inl, inr, arith, false, ok, u64_values,
  add32-ok, add64-ok, le→leb, lt→leb, le→ltb,
}
use gc_united.Heap.{Handle, header_size, align, null_addr, off_fwd, off_size, write, put32}
use gc_united.Heap.Words.{put32-SameOutside, word32-put32, word32-same}
use gc_united.Heap.Views.{size_at, fwd_at, size-ok, set_forward-ok}
use gc_united.Heap.Moves.{relocate-copies}
use gc_united.SemiSpace.{SemiSpace, limit, in_current_space, move_object, copy_object}

-- The block `h` lies outside the half in use, which has room for it.
pub record IsMovable (gc : SemiSpace) (h : Handle) : Type 0 where
  pub big : header_size ≤ size_at gc.heap.bytes h
  pub whole : size_at gc.heap.bytes h % align ≡ 0
  pub source : h + size_at gc.heap.bytes h ≤ gc.heap.len
  pub apart : (h + size_at gc.heap.bytes h ≤ gc.current) ⊎ (gc.current + gc.half ≤ h)
  pub started : gc.current ≤ gc.free
  pub aligned : gc.free % align ≡ 0
  pub room : gc.free + size_at gc.heap.bytes h ≤ gc.current + gc.half
  pub inside : gc.current + gc.half ≤ gc.heap.len
  pub addressable : gc.heap.len < null_addr
  pub counted : gc.stats.objects_copied + 1 < u64_values

-- `gc'` is `gc` with a copy of the block `h` of `n` bytes at the free pointer, which moves past it, and with
-- the address of the copy noted in the original.
pub record IsCopied (gc gc' : SemiSpace) (h n : ℕ) : Type 0 where
  pub copied : (i : ℕ) → i < n → gc'.heap.bytes (gc.free + i) ≡ gc.heap.bytes (h + i)
  pub noted : fwd_at gc'.heap.bytes h ≡ gc.free
  pub same :
      (x : ℕ)
      → (x < gc.free) ⊎ (gc.free + n ≤ x)
      → (x < h + off_fwd) ⊎ (h + off_fwd + 4 ≤ x)
      → gc'.heap.bytes x ≡ gc.heap.bytes x
  pub rest : gc' ≡ record gc {
    heap = write gc.heap gc'.heap.bytes;
    free = gc.free + n;
    stats = record gc.stats { objects_copied = gc.stats.objects_copied + 1 };
  }

module _ (gc : SemiSpace) (h : Handle) (is : IsMovable gc h) where
  outside_current : in_current_space gc h ≡ ok false
  unfolding in_current_space
  outside_current =
      let big = is.big in
      let started = is.started in
      let room = is.room in
      let inside = is.inside in
      let small = is.addressable in
      elim is.apart [
        | inl below ↦ rw (lt→leb h gc.current (omega arith)) refl
        | inr above ↦
            rw
              (
                le→leb gc.current h (omega arith),
                add32-ok gc.current gc.half (omega arith),
                le→ltb h (gc.current + gc.half) above,
              )
              refl
      ]

  -- `copy_object` of a block that lies outside the half in use, where that half has room for it:
  -- the block stands at the free pointer with every byte, the original names the copy as its forwarding
  -- address, and no other byte has changed.
  pub copy_object-IsCopied :
      (gc' : SemiSpace) × (copy_object gc h ≡ ok (gc', gc.free))
      × IsCopied gc gc' h (size_at gc.heap.bytes h)
  unfolding copy_object move_object limit
  copy_object-IsCopied =
      let hp = gc.heap in
      let n = size_at hp.bytes h in
      let big = is.big in
      let room = is.room in
      let inside = is.inside in
      let source = is.source in
      let small = is.addressable in
      let (m1, moves, copied, change) =
        relocate-copies hp h gc.free (omega arith) source is.aligned (omega arith) in
      let m2 = put32 m1 (h + off_fwd) gc.free in
      let note =
        put32-SameOutside m1 (h + off_fwd) gc.free (h + off_fwd) (h + off_fwd + 4) (omega arith)
          (omega arith) in
      (
        record gc {
          heap = write hp m2;
          free = gc.free + n;
          stats = record gc.stats { objects_copied = gc.stats.objects_copied + 1 };
        },
        rw
            (
              outside_current,
              size-ok hp h (omega arith),
              add32-ok gc.free n (omega arith),
              add32-ok gc.current gc.half (omega arith),
              le→leb (gc.free + n) (gc.current + gc.half) room,
              moves,
              add64-ok gc.stats.objects_copied 1 is.counted,
              set_forward-ok (write hp m1) h (omega arith) gc.free,
            )
            refl,
        record {
          copied = λ i p. note (gc.free + i) (ground (arith, is.apart, is.started)) ∙ copied i p;
          noted = omega (arith, word32-put32 m1 (h + off_fwd) gc.free);
          same = λ x o o'. note x o' ∙ change x o;
          rest = refl;
        },
      )

module _ (gc : SemiSpace) (h : Handle) (is : IsMovable gc h) (gc1 : SemiSpace)
    (once : IsCopied gc gc1 h (size_at gc.heap.bytes h)) where
  sized : size_at gc1.heap.bytes h ≡ size_at gc.heap.bytes h
  sized =
      let big = is.big in
      let room = is.room in
      word32-same gc.heap.bytes gc1.heap.bytes (h + off_size)
        (λ x p q. once.same x (ground (arith, is.apart, is.started)) (inl (omega arith)))

  -- The object may be copied again.
  IsMovable-again :
      gc.free + size_at gc.heap.bytes h + size_at gc.heap.bytes h ≤ gc.current + gc.half
      → gc.stats.objects_copied + 2 < u64_values
      → IsMovable gc1 h
  IsMovable-again more counted =
      let big = is.big in
      let whole = is.whole in
      let source = is.source in
      let started = is.started in
      let aligned = is.aligned in
      let free : gc1.free ≡ gc.free + size_at gc.heap.bytes h = ap (λ g. g.free) once.rest in
      let current : gc1.current ≡ gc.current = ap (λ g. g.current) once.rest in
      let half : gc1.half ≡ gc.half = ap (λ g. g.half) once.rest in
      let len : gc1.heap.len ≡ gc.heap.len = ap (λ g. g.heap.len) once.rest in
      let copies : gc1.stats.objects_copied ≡ gc.stats.objects_copied + 1 =
        ap (λ g. g.stats.objects_copied) once.rest in
      record {
        big = omega (arith, sized);
        whole = rw sized whole;
        source = omega (arith, sized);
        apart = ground (arith, is.apart, sized);
        started = omega arith;
        aligned = omega arith;
        room = omega (arith, sized);
        inside = omega (arith, is.inside);
        addressable = omega (arith, is.addressable);
        counted = omega arith;
      }

-- A block lies outside the half in use, which has room for it twice. Then two calls of `copy_object`
-- for it return two different addresses, and the block stands at both: the first with every byte of
-- the original, the second with every byte that the original has after the first call.
pub copy_object-splits :
    (gc : SemiSpace) (h : Handle)
    → IsMovable gc h
    → gc.free + size_at gc.heap.bytes h + size_at gc.heap.bytes h ≤ gc.current + gc.half
    → gc.stats.objects_copied + 2 < u64_values
    → (gc1 : SemiSpace) × (first : Handle) × (copy_object gc h ≡ ok (gc1, first))
      × (gc2 : SemiSpace) × (second : Handle) × (copy_object gc1 h ≡ ok (gc2, second))
      × (first ≢ second)
      × ((i : ℕ) → i < size_at gc.heap.bytes h → gc2.heap.bytes (first + i) ≡ gc.heap.bytes (h + i))
      × ((i : ℕ)
          → i < size_at gc.heap.bytes h
          → gc2.heap.bytes (second + i) ≡ gc1.heap.bytes (h + i))
copy_object-splits gc h is more counted =
    let n = size_at gc.heap.bytes h in
    let big = is.big in
    let (gc1, runs, once) = copy_object-IsCopied gc h is in
    let again = IsMovable-again gc h is gc1 once more counted in
    let (gc2, runs', twice) = copy_object-IsCopied gc1 h again in
    let free : gc1.free ≡ gc.free + n = ap (λ g. g.free) once.rest in
    let same_size = sized gc h is gc1 once in
    (
      gc1,
      gc.free,
      runs,
      gc2,
      gc1.free,
      runs',
      (λ e. absurd (omega arith)),
      (λ i p.
          twice.same (gc.free + i) (ground arith) (ground (arith, is.apart, is.started, is.room))
          ∙ once.copied i p),
      λ i p. twice.copied i (omega arith),
    )
