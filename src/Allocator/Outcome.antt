-- ===== src/Allocator/Outcome.antt =====
-- crates/gc-mod01/src/lib.rs: `alloc` under first fit, on every branch.
use gc_united.Base.{
  ℕ, ◌+◌, ◌-◌, ◌%◌, ◌^◌, ◌≤◌, ◌<◌, ◌≡◌, refl, sym, ◌⊎◌, inl, inr, arith, true, ◌==◌, List, [], ◌∷◌,
  ◌++◌, has_of_count-pos, one_if, split_at, get_elem?, take, Option, none, some, ok, u32_values,
  u64_values, Bool-cases, leb, leb→le, leb→lt, lt→ltb, le→ltb, add32-ok, add64-ok, sub_checked-ok,
  subst,
}
use gc_united.Heap.{Handle, align, header_size, write, size_for}
use gc_united.Heap.Sizes.{size_for-IsFootprint}
use gc_united.Heap.Views.{size_at, size-ok}
use gc_united.Heap.Emplace.{emplace-IsFresh}
use gc_united.Heap.Chain.{IsBlock, free_at}
use gc_united.Space.Invariant.{IsSpace, Chain-aligned}
use gc_united.Space.Carve.{pieces, split_block-Rest}
use gc_united.Space.Alloc.{
  IsAllocated, free_block_of_listed, inside_of_has, inside_of_listed, used-le, carve-Allocated,
}
use gc_united.Space.Extend.{extend-IsAllocated}
use gc_united.Allocator.{
  Allocator, AllocStats, first, view, first_fit, remove, take_at, take_from_free_list,
  take_from_virgin, place, alloc,
}
use gc_united.Allocator.Fit.{AllSmall, Fit, first_fit-Fit, remove-count}

-- No counter is at its end.
pub record HasCounterRoom (st : AllocStats) (need : ℕ) : Type 0 where
  pub allocations : st.allocations + 1 < u64_values
  pub bytes : st.bytes_allocated + need < u64_values
  pub splits : st.splits + 1 < u64_values
  pub failures : st.failures + 1 < u64_values
  pub reused : st.reused + 1 < u64_values

-- The counters after an allocation from the free list, from fresh memory, and after a refusal.
abbrev pub granted : AllocStats → ℕ → AllocStats
granted st need = record st {
  allocations = st.allocations + 1;
  bytes_allocated = st.bytes_allocated + need;
}

abbrev pub recycled : AllocStats → AllocStats
recycled st = record st { splits = st.splits + 1; reused = st.reused + 1 }

-- The allocator hands out `h`, with the counters `st`.
abbrev pub Granted : Allocator → List Handle → ℕ → ℕ → ℕ → AllocStats → Handle → Type 0
Granted a bs refs ndata need st h =
    (a' : Allocator) × (bs' : List Handle) × (alloc a refs ndata ≡ ok (a', some h))
    × IsAllocated (view a) (view a') bs bs' h need refs
    × (a'.stats ≡ granted st need)

-- The allocator hands out the block `h`, which stands at `j` in the free list. It leaves the list,
-- and what is behind the object goes to the end of it.
abbrev pub Recycled : Allocator → List Handle → ℕ → ℕ → ℕ → ℕ → Handle → Type 0
Recycled a bs refs ndata need j h =
    (a' : Allocator) × (bs' : List Handle) × (alloc a refs ndata ≡ ok (a', some h))
    × IsAllocated (view a) (view a') bs bs' h need refs
    × (a'.stats ≡ granted (recycled a.stats) need)
    × (rest : List Handle) × (remove j a.free_handles ≡ ok (h, rest))
    × (a'.free_handles ≡ rest ++ (h + need) ∷ [])

-- What `alloc` comes to on the heap with the blocks `bs`: it hands out a block of the free list, all
-- blocks ahead of which are too small, or memory past the bump pointer, or nothing; in the last two
-- cases all blocks of the list are too small.
abbrev pub Outcome : Allocator → List Handle → ℕ → ℕ → ℕ → Type 0
Outcome a bs refs ndata need =
    ((h : Handle) × (j : ℕ) × (get_elem? a.free_handles j ≡ some h)
      × (need + header_size ≤ size_at a.heap.bytes h)
      × AllSmall a.heap need (take j a.free_handles)
      × Recycled a bs refs ndata need j h)
    ⊎ (AllSmall a.heap need a.free_handles × Granted a bs refs ndata need a.stats a.bump)
    ⊎ ((alloc a refs ndata
          ≡ ok (record a { stats = record a.stats { failures = a.stats.failures + 1 } }, none))
        × AllSmall a.heap need a.free_handles
        × (a.heap.len ≤ a.bump + need))

module _ (a : Allocator) (refs ndata need : ℕ) (sized : size_for refs ndata ≡ ok need)
    (small : refs < 2 ^ 16) (policy : a.policy ≡ first) (room : HasCounterRoom a.stats need) where
  none_taken :
      first_fit a.heap need 0 a.free_handles ≡ ok none → take_from_free_list a need ≡ ok (a, none)
  unfolding take_from_free_list
  none_taken none_found = simp (policy, none_found)

  taken :
      (j b : ℕ) (a' : Allocator)
      → first_fit a.heap need 0 a.free_handles ≡ ok (some j)
      → take_at a need j ≡ ok (a', b)
      → take_from_free_list a need ≡ ok (a', some b)
  unfolding take_from_free_list
  taken j b a' found runs = rw (policy, found, runs)

  alloc-listed :
      (front : List Handle) (b : Handle) (back : List Handle) (j : ℕ)
      → IsSpace (view a) (front ++ b ∷ back)
      → first_fit a.heap need 0 a.free_handles ≡ ok (some j)
      → get_elem? a.free_handles j ≡ some b
      → need + header_size ≤ size_at a.heap.bytes b
      → free_at a.heap.bytes b ≡ true
      → (b % align ≡ 0) × (b + size_at a.heap.bytes b ≤ a.bump) × IsBlock a.heap.bytes b
      → Recycled a (front ++ b ∷ back) refs ndata need j b
  unfolding alloc take_at place
  alloc-listed front b back j is found at big freed (aligned, inside, block) =
      let n = size_at a.heap.bytes b in
      let print = size_for-IsFootprint refs ndata need sized in
      let within = is.within in
      let (rest, removed, counts) = remove-count a.free_handles j b at in
      let (m, free, split, left, same, bytes) =
        split_block-Rest a.heap rest b need n (omega arith) aligned print.aligned block.whole
          (omega arith) is.addressable in
      let (m', placed, fresh) =
        emplace-IsFresh (write a.heap m) b refs ndata need sized small aligned (omega arith)
          is.addressable in
      let done =
        carve-Allocated (view a) front b back refs ndata need is sized small (omega arith) freed
          rest counts m free left same bytes m' fresh in
      let fits : a.used + need < u32_values = omega (arith, used-le done.space) in
      let after = record a {
        heap = write a.heap m;
        free_handles = free;
        stats = record a.stats { splits = a.stats.splits + 1 };
      } in
      let takes : take_at a need j ≡ ok (after, b) = rw (
        removed,
        size-ok a.heap b (omega (arith, block.big)),
        sub_checked-ok n need (omega arith),
        split,
        lt→ltb 0 (n - need) (omega arith),
        add64-ok a.stats.splits 1 room.splits,
      ) in
      (
        record a {
          heap = write a.heap m';
          free_handles = free;
          used = a.used + need;
          stats = granted (recycled a.stats) need;
        },
        front ++ (pieces b need n ++ back),
        rw (
          sized,
          taken j b after found takes,
          add64-ok a.stats.reused 1 room.reused,
          placed,
          add32-ok a.used need fits,
          add64-ok a.stats.allocations 1 room.allocations,
          add64-ok a.stats.bytes_allocated need room.bytes,
        ),
        done,
        refl,
        rest,
        removed,
        elim left [ inl (none_left, _) ↦ absurd (omega arith) | inr (_, _, pushed) ↦ pushed ],
      )

  alloc-fresh :
      (bs : List Handle)
      → IsSpace (view a) bs
      → first_fit a.heap need 0 a.free_handles ≡ ok none
      → a.bump + need < a.heap.len
      → Granted a bs refs ndata need a.stats a.bump
  unfolding alloc take_from_virgin place
  alloc-fresh bs is none_found space =
      let print = size_for-IsFootprint refs ndata need sized in
      let aligned = (Chain-aligned a.heap.bytes bs 0 a.bump is.chain (omega arith)).0 in
      let (m', placed, fresh) =
        emplace-IsFresh a.heap a.bump refs ndata need sized small aligned (omega arith)
          is.addressable in
      let addressable = is.addressable in
      (
        record a {
          heap = write a.heap m';
          bump = a.bump + need;
          used = a.used + need;
          stats = granted a.stats need;
        },
        bs ++ a.bump ∷ [],
        rw (
          sized,
          none_taken none_found,
          sub_checked-ok a.heap.len a.bump is.within,
          lt→ltb need (a.heap.len - a.bump) (omega arith),
          add32-ok a.bump need (omega arith),
          placed,
          add32-ok a.used need (omega (arith, used-le is)),
          add64-ok a.stats.allocations 1 room.allocations,
          add64-ok a.stats.bytes_allocated need room.bytes,
        ),
        extend-IsAllocated (view a) bs need refs is (omega arith) print.aligned (omega arith) m'
            fresh,
        refl,
      )

  alloc-full :
      (bs : List Handle)
      → IsSpace (view a) bs
      → first_fit a.heap need 0 a.free_handles ≡ ok none
      → a.heap.len ≤ a.bump + need
      → alloc a refs ndata
        ≡ ok (record a { stats = record a.stats { failures = a.stats.failures + 1 } }, none)
  unfolding alloc take_from_virgin
  alloc-full bs is none_found full =
      let within = is.within in
      rw (
        sized,
        none_taken none_found,
        sub_checked-ok a.heap.len a.bump is.within,
        le→ltb need (a.heap.len - a.bump) (omega arith),
        add64-ok a.stats.failures 1 room.failures,
      )

  pub alloc-found :
      (bs : List Handle)
      → IsSpace (view a) bs
      → (b j : ℕ) → first_fit a.heap need 0 a.free_handles ≡ ok (some j)
      → get_elem? a.free_handles j ≡ some b
      → need + header_size ≤ size_at a.heap.bytes b
      → Recycled a bs refs ndata need j b
  alloc-found bs is b j e at big =
      let (rest, removed, counts) = remove-count a.free_handles j b at in
      let twice : one_if (b == b) ≡ 1 = ground arith in
      let (member, freed) =
        free_block_of_listed is b
          (has_of_count-pos b a.free_handles (omega (arith, counts b, twice))) in
      let (front, back, whole) = split_at b bs member in
      subst (λ l. Recycled a l refs ndata need j b) (sym whole)
        (alloc-listed front b back j (subst (IsSpace (view a)) whole is) e at big freed
          (inside_of_has is b member))

  -- On a well-formed heap, with a request whose footprint is `need` and counters that are not at
  -- their ends, `alloc` returns under first fit. It hands out a block of the free list that has room
  -- for the request and a header behind it, where no block ahead of it on the list has that room, or,
  -- where no block of the list has it, memory past the bump pointer, in each case as a fresh object
  -- that changes no live block; or it changes nothing but the count of failures. Then no block of the
  -- list has that room, and the memory past the bump pointer is no larger than the request.
  pub alloc-Outcome : (bs : List Handle) → IsSpace (view a) bs → Outcome a bs refs ndata need
  alloc-Outcome bs is =
      let (o, e, found) = first_fit-Fit a.heap need 0 a.free_handles (inside_of_listed is) in
      by_search o e found
    where
      by_search :
          (o : Option ℕ)
          → first_fit a.heap need 0 a.free_handles ≡ ok o
          → Fit a.heap need a.free_handles o 0
          → Outcome a bs refs ndata need
      by_search none e too_small = elim (Bool-cases (leb a.heap.len (a.bump + need))) [
        | inl full ↦ inr (inr (alloc-full bs is e (leb→le _ _ full), too_small, leb→le _ _ full))
        | inr fresh ↦ inr (inl (too_small, alloc-fresh bs is e (leb→lt _ _ fresh)))
      ]
      by_search (some k) e (j, b, k_is, at, big, ahead) =
          let same : k ≡ j = omega arith in
          let first_at : first_fit a.heap need 0 a.free_handles ≡ ok (some j) = rw same at e in
          inl (b, j, at, big, ahead, alloc-found bs is b j first_at at big)
