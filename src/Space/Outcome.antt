-- ===== src/Space/Outcome.antt =====
-- crates/gc-core/src/space.rs: `alloc` returns on every well-formed space.
use gc_united.Base.{
  ℕ, ◌+◌, ◌%◌, ◌^◌, ◌≤◌, ◌<◌, ◌≡◌, sym, ◌⊎◌, inl, inr, arith, true, false, ◌==◌, List, [], ◌∷◌,
  ◌++◌, has, has_of_count-pos, one_if, split_at, get_elem?, Option, none, some, ok, u32_values,
  Bool-cases, leb, leb→le, leb→lt, lt→ltb, le→ltb, add32-ok, sub_checked-ok, subst,
}
use gc_united.Heap.{Handle, align, write, size_for}
use gc_united.Heap.Sizes.{size_for-IsFootprint}
use gc_united.Heap.Views.{size_at, size-ok}
use gc_united.Heap.Emplace.{emplace-IsFresh}
use gc_united.Heap.Chain.{IsBlock, free_at}
use gc_united.Space.{FreeListSpace, take_at, take_free, take_bump, reserve, alloc, position}
use gc_united.Space.Invariant.{IsSpace, Chain-aligned}
use gc_united.Space.Search.{Found, position-Found, swap_remove-count}
use gc_united.Space.Extend.{extend-IsAllocated}
use gc_united.Space.Carve.{pieces, split_block-Rest}
use gc_united.Space.Alloc.{
  Allocated, free_block_of_listed, inside_of_has, inside_of_listed, used-le, carve-Allocated,
}

module _ (s : FreeListSpace) (refs ndata need : ℕ) (sized : size_for refs ndata ≡ ok need)
    (small : refs < 2 ^ 16) where
  -- The search found block `b` at index `j`.
  alloc-listed :
      (front : List Handle) (b : Handle) (back : List Handle) (j : ℕ)
      → IsSpace s (front ++ b ∷ back)
      → position s.heap need 0 s.free ≡ ok (some j)
      → get_elem? s.free j ≡ some b
      → need ≤ size_at s.heap.bytes b
      → free_at s.heap.bytes b ≡ true
      → (b % align ≡ 0) × (b + size_at s.heap.bytes b ≤ s.bump) × IsBlock s.heap.bytes b
      → Allocated s (front ++ b ∷ back) refs ndata need b
  unfolding alloc reserve take_free take_at
  alloc-listed front b back j is found at big freed (aligned, inside, block) =
      let n = size_at s.heap.bytes b in
      let print = size_for-IsFootprint refs ndata need sized in
      let within = is.within in
      let (rest, removed, counts) = swap_remove-count s.free j b at in
      let (m, free, split, left, same, bytes) =
        split_block-Rest s.heap rest b need n big aligned print.aligned block.whole (omega arith)
          is.addressable in
      let (m', placed, fresh) =
        emplace-IsFresh (write s.heap m) b refs ndata need sized small aligned (omega arith)
          is.addressable in
      let done =
        carve-Allocated s front b back refs ndata need is sized small big freed rest counts m free
          left same bytes m' fresh in
      let fits : s.used + need < u32_values = omega (arith, used-le done.space) in
      (
        record s { heap = write s.heap m'; free = free; sorted = false; used = s.used + need },
        front ++ (pieces b need n ++ back),
        rw (
          sized,
          found,
          removed,
          size-ok s.heap b (omega (arith, block.big)),
          sub_checked-ok n need big,
          split,
          add32-ok s.used need fits,
          placed,
        ),
        done,
      )

  -- No block of the free list is large enough, and the memory past the bump pointer is.
  alloc-fresh :
      (bs : List Handle)
      → IsSpace s bs
      → position s.heap need 0 s.free ≡ ok none
      → s.bump + need ≤ s.heap.len
      → Allocated s bs refs ndata need s.bump
  unfolding alloc reserve take_free take_bump
  alloc-fresh bs is none_found room =
      let print = size_for-IsFootprint refs ndata need sized in
      let aligned = (Chain-aligned s.heap.bytes bs 0 s.bump is.chain (omega arith)).0 in
      let (m', placed, fresh) =
        emplace-IsFresh s.heap s.bump refs ndata need sized small aligned room is.addressable in
      let h = s.bump in
      let addressable = is.addressable in
      (
        record s { heap = write s.heap m'; bump = h + need; used = s.used + need },
        bs ++ h ∷ [],
        rw (
          sized,
          none_found,
          add32-ok h need (omega arith),
          le→ltb s.heap.len (h + need) room,
          add32-ok s.used need (omega (arith, used-le is)),
          placed,
        ),
        extend-IsAllocated s bs need refs is (omega arith) print.aligned room m' fresh,
      )

  alloc-full :
      position s.heap need 0 s.free ≡ ok none
      → s.bump + need < u32_values
      → s.heap.len < s.bump + need
      → alloc s refs ndata ≡ ok (s, none)
  unfolding alloc reserve take_free take_bump
  alloc-full none_found small_end full =
      rw (sized, none_found, add32-ok s.bump need small_end, lt→ltb s.heap.len (s.bump + need) full)

  alloc-found :
      (bs : List Handle)
      → IsSpace s bs
      → (b j : ℕ) → position s.heap need 0 s.free ≡ ok (some j)
      → get_elem? s.free j ≡ some b
      → need ≤ size_at s.heap.bytes b
      → Allocated s bs refs ndata need b
  alloc-found bs is b j e at big =
      let (rest, removed, counts) = swap_remove-count s.free j b at in
      let twice : one_if (b == b) ≡ 1 = ground arith in
      let (member, freed) =
        free_block_of_listed is b (has_of_count-pos b s.free (omega (arith, counts b, twice))) in
      let (front, back, whole) = split_at b bs member in
      subst (λ l. Allocated s l refs ndata need b) (sym whole)
        (alloc-listed front b back j (subst (IsSpace s) whole is) e at big freed
          (inside_of_has is b member))

  -- On a well-formed space whose end stays in `u32`, `alloc` returns. Either it hands out an object
  -- of the footprint in a well-formed space in which no live block has changed, or it changes
  -- nothing, and then every block of the free list is too small and so is the memory past the bump
  -- pointer.
  pub alloc-outcome :
      (bs : List Handle)
      → IsSpace s bs
      → s.bump + need < u32_values
      → ((h : Handle) × Allocated s bs refs ndata need h)
        ⊎ ((alloc s refs ndata ≡ ok (s, none))
            × ((a : ℕ) → has a s.free ≡ true → size_at s.heap.bytes a < need)
            × (s.heap.len < s.bump + need))
  alloc-outcome bs is small_end =
      let (o, e, found) = position-Found s.heap need 0 s.free (inside_of_listed is) in
      by_search o e found
    where
      by_search :
          (o : Option ℕ)
          → position s.heap need 0 s.free ≡ ok o
          → Found s.heap need s.free o 0
          → ((h : Handle) × Allocated s bs refs ndata need h)
            ⊎ ((alloc s refs ndata ≡ ok (s, none))
                × ((a : ℕ) → has a s.free ≡ true → size_at s.heap.bytes a < need)
                × (s.heap.len < s.bump + need))
      by_search none e too_small = elim (Bool-cases (leb (s.bump + need) s.heap.len)) [
        | inl room ↦ inl (s.bump, alloc-fresh bs is e (leb→le _ _ room))
        | inr full ↦ inr (alloc-full e small_end (leb→lt _ _ full), too_small, leb→lt _ _ full)
      ]
      by_search (some k) e (j, b, k_is, at, big) =
          let same : k ≡ j = omega arith in inl (b, alloc-found bs is b j (rw same at e) at big)
