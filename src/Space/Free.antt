-- ===== src/Space/Free.antt =====
-- crates/gc-core/src/space.rs: `new` and `free`.
use gc_united.Base.{
  ℕ, ◌+◌, ◌-◌, ◌%◌, ◌≤◌, ◌<◌, ◌≡◌, refl, ap, ◌∙◌, arith, true, false, List, [], ◌∷◌, ◌++◌, has,
  count-append, ok, panic, sub_checked-ok, le→leb, lt→ltb,
}
use gc_united.Heap
use gc_united.Heap.{
  Memory, Heap, Handle, header_size, align, null_addr, flag_free, flag_mark, off_nrefs, off_flags,
  off_rc, write, put8, put16, put32, with_bit, has_bit, is_aligned,
}
use gc_united.Heap.Words.{
  SameOutside, IsBytes, word16-put16, word32-put32, put8_self, frame16, frame32, put8-SameOutside,
  put16-SameOutside, put32-SameOutside, IsBytes-put8, IsBytes-put16, IsBytes-put32,
}
use gc_united.Heap.Views.{
  size_at, nrefs_at, flags_at, rc_at, size-ok, flag-ok, set_nrefs-ok, set_rc-ok, set_flag-ok,
}
use gc_united.Heap.Flags.{has_bit-with_bit}
use gc_united.Heap.Moves.{IsWiped, poison-IsWiped}
use gc_united.Heap.Chain.{free_at}
use gc_united.Space.{FreeListSpace, new, is_free, free}
use gc_united.Space.Invariant.{IsSpace}
use gc_united.Space.Alloc.{inside_of_has}
use gc_united.Space.Return.{IsReturned, less, size-le_used, returned}

-- The block at `h`, of `n` bytes, as `free` leaves it.
pub record IsFreed (m m' : Memory) (h n : ℕ) : Type 0 where
  pub freed : free_at m' h ≡ true
  pub unmarked : has_bit (flags_at m' h) flag_mark ≡ false
  pub sized : size_at m' h ≡ n
  pub slots : nrefs_at m' h ≡ 0
  pub counted : rc_at m' h ≡ 0
  pub payload : (x : ℕ) → h + header_size ≤ x → x < h + n → m' x ≡ Heap.poison_byte
  pub outside : SameOutside h (h + n) m m'
  pub bytes : IsBytes m → IsBytes m'

-- The writes of `free` after `poison`.
module _ (m : Memory) (h n : ℕ) where
  pub cleared : Memory
  cleared =
      let m2 = put16 m (h + off_nrefs) 0 in
      let m3 = put32 m2 (h + off_rc) 0 in
      put8 m3 (h + off_flags) (with_bit (flags_at m3 h) flag_mark false)

module _ (m m1 : Memory) (h n : ℕ) (bytes : IsBytes m) (wiped : IsWiped m m1 h n)
    (big : header_size ≤ n) where
  cleared-IsFreed : size_at m h ≡ n → IsFreed m (cleared m1 h n) h n
  unfolding cleared
  cleared-IsFreed sized =
      let m2 = put16 m1 (h + off_nrefs) 0 in
      let m3 = put32 m2 (h + off_rc) 0 in
      let f = with_bit (flags_at m3 h) flag_mark false in
      let s2 = put16-SameOutside m1 (h + off_nrefs) 0 (h + 4) (h + 6) (omega arith) (omega arith) in
      let s3 = put32-SameOutside m2 (h + off_rc) 0 (h + 12) (h + 16) (omega arith) (omega arith) in
      let s4 = put8-SameOutside m3 (h + off_flags) f (h + 6) (h + 7) (omega arith) (omega arith) in
      let b1 = wiped.bytes bytes in
      let b3 = IsBytes-put32 m2 (h + off_rc) 0 (IsBytes-put16 m1 (h + off_nrefs) 0 b1) in
      let f3 : flags_at m3 h ≡ with_bit (flags_at m h) flag_free true % 256 =
        s3 (h + off_flags) (ground arith) ∙ s2 (h + off_flags) (ground arith) ∙ wiped.flagged in
      let f4 : flags_at (put8 m3 (h + off_flags) f) h ≡ f % 256 = put8_self m3 (h + off_flags) f in
      record {
        freed =
            ap (λ g. has_bit g flag_free) f4
            ∙ has_bit-with_bit (flags_at m3 h) 0 3 false (b3 (h + off_flags)) (omega arith)
                (omega arith)
            ∙ ap (λ g. has_bit g flag_free) f3
            ∙ has_bit-with_bit (flags_at m h) 3 3 true (bytes (h + off_flags)) (omega arith)
                (omega arith);
        unmarked =
            ap (λ g. has_bit g flag_mark) f4
            ∙ has_bit-with_bit (flags_at m3 h) 0 0 false (b3 (h + off_flags)) (omega arith)
                (omega arith);
        sized =
            frame32 s4 _ (ground arith)
            ∙ frame32 s3 _ (ground arith)
            ∙ frame32 s2 _ (ground arith)
            ∙ wiped.sized
            ∙ sized;
        slots =
            frame16 s4 _ (ground arith)
            ∙ frame16 s3 _ (ground arith)
            ∙ word16-put16 m1 (h + off_nrefs) 0;
        counted = frame32 s4 _ (ground arith) ∙ word32-put32 m2 (h + off_rc) 0;
        payload = λ x p q.
            s4 x (ground arith) ∙ s3 x (ground arith) ∙ s2 x (ground arith) ∙ wiped.payload x p q;
        outside = λ x o.
            s4 x (ground arith) ∙ s3 x (ground arith) ∙ s2 x (ground arith) ∙ wiped.outside x o;
        bytes = λ b. IsBytes-put8 m3 (h + off_flags) f b3;
      }

module _ {s : FreeListSpace} {bs : List Handle} (is : IsSpace s bs) (h : Handle) where
  -- Freeing a block that is already free panics.
  pub free_twice : has h bs ≡ true → free_at s.heap.bytes h ≡ true → free s h ≡ panic
  unfolding free is_free
  free_twice member freed =
      let (aligned, inside, block) = inside_of_has is h member in
      let big = block.big in
      let within = is.within in rw (flag-ok s.heap h (omega arith) flag_free, freed)

  -- The memory after `free`, and that `free` returns.
  free-runs :
      has h bs ≡ true
      → free_at s.heap.bytes h ≡ false
      → size_at s.heap.bytes h ≤ s.used
      → (m' : Memory) × (free s h
          ≡ ok (record s {
            heap = write s.heap m';
            free = s.free ++ h ∷ [];
            sorted = false;
            used = s.used - size_at s.heap.bytes h;
          }))
        × IsFreed s.heap.bytes m' h (size_at s.heap.bytes h)
  unfolding free is_free cleared Heap.set_marked
  free-runs member live enough =
      let (aligned, inside, block) = inside_of_has is h member in
      let big = block.big in
      let within = is.within in
      let n = size_at s.heap.bytes h in
      let room : h + header_size ≤ s.heap.len = omega arith in
      let (m1, e1, wiped, _) = poison-IsWiped s.heap h big (omega arith) in
      let m2 = put16 m1 (h + off_nrefs) 0 in
      let m3 = put32 m2 (h + off_rc) 0 in
      (
        cleared m1 h n,
        rw (
          flag-ok s.heap h room flag_free,
          live,
          size-ok s.heap h room,
          e1,
          set_nrefs-ok (write s.heap m1) h room 0,
          set_rc-ok (write s.heap m2) h room 0,
          set_flag-ok (write s.heap m3) h room flag_mark false,
          sub_checked-ok s.used n enough,
        ),
        cleared-IsFreed s.heap.bytes m1 h n is.bytes wiped big refl,
      )

-- `s'` is `s` with the block `h` given back: the space is well formed over the same blocks, `h` is
-- flagged free, poisoned, unmarked and without slots and count, and nothing outside it has changed.
pub record IsReleased (s s' : FreeListSpace) (bs : List Handle) (h : Handle) : Type 0 where
  pub space : IsSpace s' bs
  pub block : IsFreed s.heap.bytes s'.heap.bytes h (size_at s.heap.bytes h)
  pub used : s'.used + size_at s.heap.bytes h ≡ s.used
  pub listed : s'.free ≡ s.free ++ h ∷ []
  pub unsorted : s'.sorted ≡ false

-- `free` of a live block of a well-formed space returns, and gives exactly that block back: the
-- space is well formed over the same blocks, and nothing outside the block has changed.
pub free-IsReleased :
    (s : FreeListSpace) (bs : List Handle) (h : Handle)
    → IsSpace s bs
    → has h bs ≡ true
    → free_at s.heap.bytes h ≡ false
    → (s' : FreeListSpace) × (free s h ≡ ok s') × IsReleased s s' bs h
free-IsReleased s bs h is member live =
    let n = size_at s.heap.bytes h in
    let enough = size-le_used s bs h is member live in
    let (m', runs, freed) = free-runs is h member live enough in
    let ret : IsReturned s.heap.bytes m' h = record {
      freed = freed.freed;
      sized = freed.sized;
      outside = freed.outside;
      bytes = freed.bytes is.bytes;
    } in
    (
      less s h m' (s.free ++ h ∷ []) false,
      runs,
      record {
        space =
            returned s bs h is member live m' (s.free ++ h ∷ []) false ret
              (λ a. omega (arith, count-append a s.free (h ∷ [])));
        block = freed;
        used = omega arith;
        listed = refl;
        unsorted = refl;
      },
    )

-- A new space over a legal capacity is well formed and has no block.
pub new-IsSpace :
    (capacity : ℕ)
    → header_size ≤ capacity
    → capacity < null_addr
    → capacity % align ≡ 0
    → (s : FreeListSpace) × (new capacity ≡ ok s) × IsSpace s [] × (s.heap.len ≡ capacity)
unfolding new Heap.new
new-IsSpace capacity big small whole =
    let al : is_aligned capacity ≡ true = ground arith in
    (
      record {
        heap = record { bytes = λ _. 0; len = capacity };
        free = [];
        sorted = true;
        bump = 0;
        used = 0;
      },
      rw (le→leb header_size capacity big, lt→ltb capacity null_addr small, al),
      record {
        chain = refl;
        within = omega arith;
        whole = whole;
        addressable = small;
        listed = λ a. refl;
        accounted = refl;
        bytes = λ x. omega arith;
      },
      refl,
    )
