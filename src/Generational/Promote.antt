-- ===== src/Generational/Promote.antt =====
-- crates/gc-mod07/src/lib.rs: the promotion of an object of the nursery.
use gc_united.Base.{
  ℕ, ◌+◌, ◌%◌, ◌≤◌, ◌<◌, ◌≡◌, ◌≢◌, refl, sym, ◌∙◌, ap, ◌⊎◌, inl, inr, arith, true, false, ◌==◌, leb,
  ltb, ◌&&◌, ◌-◌, Bool-cases, [], ◌∷◌, ◌++◌, none, some, ok, ok-inj, u32_values, u64_values,
  add32-ok, add64-ok, le→leb,
}
use gc_united.Heap
use gc_united.Heap.{
  Memory, Heap, Handle, header_size, align, null_addr, off_fwd, off_flags, off_size, gen_mask,
  gen_shift, is_null, with_bits, write, put8, put32, relocate,
}
use gc_united.Heap.Words.{
  SameOutside, IsBytes, put8-SameOutside, put32-SameOutside, word32-put32, frame32, IsBytes-put32,
}
use gc_united.Heap.Views.{
  size_at, fwd_at, flags_at, size-ok, flags-ok, set_flags-ok, forward-ok, set_forward-ok,
}
use gc_united.Heap.Moves.{relocate-copies}
use gc_united.Heap.Flags.{generation-set_generation}
use gc_united.Space.{position}
use gc_united.Generational.{Generational, old, old_alloc, old_extend, promote, promote_to}

-- The object `h` of the nursery has not moved, the search finds no free block of the old generation for
-- it, and the memory that was never handed out holds it.
pub record IsPromotable (gc : Generational) (h : Handle) : Type 0 where
  pub is_young : gc.nursery ≤ h
  pub unmoved : fwd_at gc.heap.bytes h ≡ null_addr
  pub big : header_size ≤ size_at gc.heap.bytes h
  pub source : h + size_at gc.heap.bytes h ≤ gc.heap.len
  pub unlisted : position gc.heap (size_at gc.heap.bytes h) 0 gc.free ≡ ok none
  pub aligned : gc.old_bump % align ≡ 0
  pub room : gc.old_bump + size_at gc.heap.bytes h ≤ gc.nursery
  pub addressable : gc.heap.len < null_addr
  pub used : gc.old_used + size_at gc.heap.bytes h < u32_values
  pub bytes : IsBytes gc.heap.bytes
  pub promoted : gc.stats.objects_promoted + 1 < u64_values
  pub copied : gc.stats.objects_copied + 1 < u64_values

-- A copied block leaves bytes.
IsBytes-moved :
    {m m' : Memory} (h k at : ℕ)
    → IsBytes m
    → ((i : ℕ) → i < k → m' (at + i) ≡ m (h + i))
    → SameOutside at (at + k) m m'
    → IsBytes m'
IsBytes-moved {m} {m'} h k at bytes copied change x =
    elim (Bool-cases (leb at x && ltb x (at + k))) [
      | inl inside ↦
          let i = x - at in
          let e : at + i ≡ x = ground arith in
          let here : m' x ≡ m (h + i) = ap m' (sym e) ∙ copied i (ground arith) in
          omega (arith, here, bytes (h + i))
      | inr outside ↦ omega (arith, change x (ground arith), bytes x)
    ]

set_generation-ok :
    (hp : Heap) (h : Handle) (g : ℕ)
    → h + header_size ≤ hp.len
    → Heap.set_generation hp h g
      ≡ ok (
          write hp
            (put8 hp.bytes (h + off_flags) (with_bits (flags_at hp.bytes h) gen_mask gen_shift g)))
unfolding Heap.set_generation
set_generation-ok hp h g inside =
    rw (flags-ok hp h inside)
      (set_flags-ok hp h inside (with_bits (flags_at hp.bytes h) gen_mask gen_shift g))

module _ (gc : Generational) (h : Handle) (is : IsPromotable gc h) where
  -- The memory behind the bump pointer is reserved.
  reserved : Generational
  reserved = record gc {
    old_bump = gc.old_bump + size_at gc.heap.bytes h;
    old_used = gc.old_used + size_at gc.heap.bytes h;
  }

  reserves : old_alloc gc (size_at gc.heap.bytes h) ≡ ok (reserved, some gc.old_bump)
  unfolding old_alloc old_extend reserved
  reserves =
      let k = size_at gc.heap.bytes h in
      let room = is.room in
      let source = is.source in
      let young = is.is_young in
      let addressable = is.addressable in
      rw
        (
          is.unlisted,
          add32-ok gc.old_bump k (omega arith),
          le→leb (gc.old_bump + k) gc.nursery room,
          add32-ok gc.old_used k is.used,
        )
        refl

  -- `promote` of an object of the nursery that has not moved, where the old generation has room for it
  -- past its bump pointer only: the object stands there with every byte but its flags, of which the
  -- generation is now that of an old object; the original names the copy as its forwarding address; no
  -- other byte changes. A second call returns the same address and changes nothing.
  pub promote-IsOnce :
      (gc' : Generational) × (promote gc h ≡ ok (gc', gc.old_bump))
      × ((i : ℕ)
          → i < size_at gc.heap.bytes h
          → i ≢ off_flags
          → gc'.heap.bytes (gc.old_bump + i) ≡ gc.heap.bytes (h + i))
      × (Heap.generation gc'.heap gc.old_bump ≡ ok old)
      × (fwd_at gc'.heap.bytes h ≡ gc.old_bump)
      × ((x : ℕ)
          → (x < gc.old_bump) ⊎ (gc.old_bump + size_at gc.heap.bytes h ≤ x)
          → (x < h + off_fwd) ⊎ (h + off_fwd + 4 ≤ x)
          → gc'.heap.bytes x ≡ gc.heap.bytes x)
      × (promote gc' h ≡ ok (gc', gc.old_bump))
  unfolding promote promote_to reserved
  promote-IsOnce =
      let hp = gc.heap in
      let k = size_at hp.bytes h in
      let at = gc.old_bump in
      let big = is.big in
      let room = is.room in
      let source = is.source in
      let young = is.is_young in
      let addressable = is.addressable in
      let nothing : (fwd_at hp.bytes h == null_addr) ≡ true = ground (arith, is.unmoved) in
      let (m1, moves, copied, change) =
        relocate-copies hp h at (omega arith) source is.aligned (omega arith) in
      let m2 = put32 m1 (h + off_fwd) at in
      let note =
        put32-SameOutside m1 (h + off_fwd) at (h + off_fwd) (h + off_fwd + 4) (omega arith)
          (omega arith) in
      let bytes = IsBytes-put32 m1 (h + off_fwd) at (IsBytes-moved h k at is.bytes copied change) in
      let f = with_bits (flags_at m2 at) gen_mask gen_shift old in
      let m3 = put8 m2 (at + off_flags) f in
      let aged =
        put8-SameOutside m2 (at + off_flags) f (at + off_flags) (at + off_flags + 1) (omega arith)
          (omega arith) in
      let noted : fwd_at m3 h ≡ at =
        frame32 aged (h + off_fwd) (inr (omega arith))
        ∙ omega (arith, word32-put32 m1 (h + off_fwd) at) in
      let something : (at == null_addr) ≡ false = ground arith in
      let (hp', sets, reads, _, _) =
        generation-set_generation (write hp m2) at (omega arith) bytes old 0 (omega arith)
          (omega arith) in
      let same : hp' ≡ write hp m3 =
        ok-inj (sym sets ∙ set_generation-ok (write hp m2) at old (omega arith)) in
      let gc' = record reserved {
        heap = write hp m3;
        stats = record gc.stats {
          objects_promoted = gc.stats.objects_promoted + 1;
          objects_copied = gc.stats.objects_copied + 1;
        };
        worklist = gc.worklist ++ at ∷ [];
      } in
      (
        gc',
        rw
            (
              forward-ok hp h (omega arith),
              nothing,
              size-ok hp h (omega arith),
              reserves,
              moves,
              set_forward-ok (write hp m1) h (omega arith) at,
              set_generation-ok (write hp m2) at old (omega arith),
              add64-ok gc.stats.objects_promoted 1 is.promoted,
              add64-ok gc.stats.objects_copied 1 is.copied,
            )
            refl,
        (λ i p ne. aged (at + i) (ground arith) ∙ note (at + i) (inl (omega arith)) ∙ copied i p),
        ap (λ q. Heap.generation q at) (sym same) ∙ reads,
        noted,
        (λ x o o'. aged x (ground arith) ∙ note x o' ∙ change x o),
        rw (forward-ok (write hp m3) h (omega arith), noted, something) refl,
      )
