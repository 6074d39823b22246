-- ===== src/Space/Extend.antt =====
-- crates/gc-core/src/space.rs: an object in the memory past the bump pointer.
use gc_united.Base.{
  ℕ, ◌+◌, ◌%◌, ◌≤◌, ◌≡◌, refl, inl, arith, List, [], ◌∷◌, ◌++◌, has-append, ==-refl,
}
use gc_united.Heap.{Memory, Handle, header_size, align, write}
use gc_united.Heap.Emplace.{IsFresh}
use gc_united.Heap.Chain.{Chain, Chain-has, Chain-append, Chain-frame}
use gc_united.Space.{FreeListSpace}
use gc_united.Space.Invariant.{
  IsSpace, free_count, live_bytes, free_count-append, live_bytes-append, free_count-frame,
  live_bytes-frame,
}
use gc_united.Space.Carve.{IsBlock-of-IsHeader, not_free-of-IsHeader}
use gc_united.Space.Alloc.{IsAllocated}

-- A fresh object at the bump pointer extends a well-formed space.
pub extend-IsAllocated :
    (s : FreeListSpace) (bs : List Handle) (need refs : ℕ)
    → IsSpace s bs
    → header_size ≤ need
    → need % align ≡ 0
    → s.bump + need ≤ s.heap.len
    → (m' : Memory) → IsFresh s.heap.bytes m' s.bump need refs
    → IsAllocated s
        (record s { heap = write s.heap m'; bump = s.bump + need; used = s.used + need })
        bs
        (bs ++ s.bump ∷ [])
        s.bump
        need
        refs
extend-IsAllocated s bs need refs is big whole room m' fresh =
    let block = IsBlock-of-IsHeader fresh.header big whole in
    let live = not_free-of-IsHeader fresh.header in
    let n' = fresh.header.sized in
    let h = s.bump in
    let alone : live_bytes m' (h ∷ []) ≡ need = rw (live, n') (omega arith) in
    let none_free : (a : ℕ) → free_count m' a (h ∷ []) ≡ 0 = λ a. rw live (ground arith) in
    let chain : Chain m' 0 (bs ++ h ∷ []) (h + need) =
      Chain-append m' bs (h ∷ []) 0 h (h + need)
        (Chain-frame fresh.outside bs 0 h (inl (omega arith)) is.chain)
        (refl, block, omega arith) in
    record {
      space = record {
        chain = chain;
        within = room;
        whole = is.whole;
        addressable = is.addressable;
        listed = λ a. omega (
          arith,
          is.listed a,
          free_count-append m' a bs (h ∷ []),
          none_free a,
          free_count-frame fresh.outside a bs 0 h (inl (omega arith)) is.chain,
        );
        accounted = omega (
          arith,
          is.accounted,
          live_bytes-append m' bs (h ∷ []),
          alone,
          live_bytes-frame fresh.outside bs 0 h (inl (omega arith)) is.chain,
        );
        bytes = fresh.bytes is.bytes;
      };
      fresh = fresh.header;
      slots = fresh.slots;
      member = rw (has-append, ==-refl) (ground arith);
      used = refl;
      kept = λ a mem free.
          let (lo, hi, is_block) = Chain-has s.heap.bytes bs 0 h a is.chain mem in
          (rw (has-append, mem), λ x p q. fresh.outside x (inl (omega arith)));
    }
