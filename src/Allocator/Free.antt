-- ===== src/Allocator/Free.antt =====
-- crates/gc-mod01/src/lib.rs: `free` gives one block back.
use gc_united.Base.{
  ℕ, ◌+◌, ◌-◌, ◌≤◌, ◌<◌, ◌≡◌, ap, ◌∙◌, inl, inr, arith, true, false, ◌==◌, List, has, count, one_if,
  ok, u64_values, add64-ok, sub_checked-ok, Bool-cases,
}
use gc_united.Heap
use gc_united.Heap.{
  Memory, Handle, header_size, off_nrefs, off_flags, write, put16, flag_free, with_bit, has_bit,
}
use gc_united.Heap.Words.{put16-SameOutside, IsBytes-put16, frame32}
use gc_united.Heap.Flags.{has_bit-with_bit}
use gc_united.Heap.Views.{size_at, flags_at, size-ok, flag-ok, set_nrefs-ok}
use gc_united.Heap.Moves.{IsWiped, poison-IsWiped}
use gc_united.Heap.Chain.{free_at}
use gc_united.Space.Invariant.{IsSpace}
use gc_united.Space.Alloc.{inside_of_has, free_block_of_listed}
use gc_united.Space.Return.{IsReturned, size-le_used, returned}
use gc_united.Allocator.{Allocator, view, free, insert_free, in_order}
use gc_united.Allocator.Order.{count-insert_free, in_order-insert_free}

-- `a'` is `a` with the block `h` given back: the heap is well formed over the same blocks, `h` is
-- free and poisoned, nothing outside it has changed, and the free list has `h` once more.
pub record IsGivenBack (a a' : Allocator) (bs : List Handle) (h : Handle) : Type 0 where
  pub space : IsSpace (view a') bs
  pub block : IsReturned a.heap.bytes a'.heap.bytes h
  pub payload :
      (x : ℕ)
      → h + header_size ≤ x
      → x < h + size_at a.heap.bytes h
      → a'.heap.bytes x ≡ Heap.poison_byte
  pub used : a'.used + size_at a.heap.bytes h ≡ a.used
  pub listed : (c : ℕ) → count c a'.free_handles ≡ count c a.free_handles + one_if (c == h)

module _ (a : Allocator) (bs : List Handle) (h : Handle) (is : IsSpace (view a) bs)
    (member : has h bs ≡ true) (live : free_at a.heap.bytes h ≡ false) where
  unlisted : has h a.free_handles ≡ false
  unlisted = elim (Bool-cases (has h a.free_handles)) [
    | inl listed ↦ let (_, freed) = free_block_of_listed is h listed in cc
    | inr absent ↦ absent
  ]

  cleared-IsReturned :
      (m1 : Memory)
      → IsWiped a.heap.bytes m1 h (size_at a.heap.bytes h)
      → header_size ≤ size_at a.heap.bytes h
      → IsReturned a.heap.bytes (put16 m1 (h + off_nrefs) 0) h
  cleared-IsReturned m1 wiped big =
      let m = a.heap.bytes in
      let s2 = put16-SameOutside m1 (h + off_nrefs) 0 (h + 4) (h + 6) (omega arith) (omega arith) in
      record {
        freed =
            ap (λ g. has_bit g flag_free) (s2 (h + off_flags) (ground arith) ∙ wiped.flagged)
            ∙ has_bit-with_bit (flags_at m h) 3 3 true (is.bytes (h + off_flags)) (omega arith)
                (omega arith);
        sized = frame32 s2 _ (ground arith) ∙ wiped.sized;
        outside = λ x o. s2 x (ground arith) ∙ wiped.outside x o;
        bytes = IsBytes-put16 m1 (h + off_nrefs) 0 (wiped.bytes is.bytes);
      }

  -- With room in the counters, `free` of a live block of a well-formed heap gives exactly that block back, and keeps a free list
  -- in address order in order.
  pub free-IsGivenBack :
      a.stats.frees + 1 < u64_values
      → a.stats.bytes_freed + size_at a.heap.bytes h < u64_values
      → (a' : Allocator) × (free a h ≡ ok a')
        × IsGivenBack a a' bs h
        × (in_order a.free_handles ≡ true → in_order a'.free_handles ≡ true)
  unfolding free
  free-IsGivenBack frees_fit bytes_fit =
      let (aligned, inside, block) = inside_of_has is h member in
      let big = block.big in
      let within = is.within in
      let n = size_at a.heap.bytes h in
      let room : h + header_size ≤ a.heap.len = omega arith in
      let enough = size-le_used (view a) bs h is member live in
      let (m1, wipes, wiped, _) = poison-IsWiped a.heap h big (omega arith) in
      let m2 = put16 m1 (h + off_nrefs) 0 in
      let s2 = put16-SameOutside m1 (h + off_nrefs) 0 (h + 4) (h + 6) (omega arith) (omega arith) in
      let ret = cleared-IsReturned m1 wiped big in
      let list = insert_free h a.free_handles in
      let counts : (c : ℕ) → count c list ≡ count c a.free_handles + one_if (c == h) =
        λ c. count-insert_free c h a.free_handles in
      (
        record a {
          heap = write a.heap m2;
          free_handles = list;
          used = a.used - n;
          stats = record a.stats {
            frees = a.stats.frees + 1;
            bytes_freed = a.stats.bytes_freed + n;
          };
        },
        rw (
          flag-ok a.heap h room flag_free,
          live,
          size-ok a.heap h room,
          wipes,
          set_nrefs-ok (write a.heap m1) h room 0,
          sub_checked-ok a.used n enough,
          add64-ok a.stats.frees 1 frees_fit,
          add64-ok a.stats.bytes_freed n bytes_fit,
        ),
        record {
          space = returned (view a) bs h is member live m2 list false ret counts;
          block = ret;
          payload = λ x p q. s2 x (ground arith) ∙ wiped.payload x p q;
          used = omega arith;
          listed = counts;
        },
        in_order-insert_free h a.free_handles unlisted,
      )
