-- ===== src/Space/Coalesce.antt =====
-- crates/gc-core/src/space.rs: `coalesce` keeps the space and every live block.
use mathlib.Core.List.{reverse}
use gc_united.Base.{
  unsnoc-append, ℕ, ◌+◌, ◌≤◌, ◌≡◌, refl, ap, sym, ◌∙◌, inl, inr, arith, true, false, ◌==◌, List, [],
  ◌∷◌, ◌++◌, has, has-append, count, count-append, one_if, subst, ok, ℕ_discrete, unsnoc, none,
  some, List-cases, add32-ok, ==-refl,
}
use gc_united.Heap.{Handle, header_size, write}
use gc_united.Heap.Views.{size_at, size-ok}
use gc_united.Heap.Chain.{free_at, Chain-split}
use gc_united.Space.{FreeListSpace, give_back, coalesce}
use gc_united.Space.Invariant.{
  IsSpace, free_count, live_bytes, free_count-append, live_bytes-append,
}
use gc_united.Space.Alloc.{inside_of_has, free_block_of_listed}
use gc_united.Space.Holes.{
  holes, IsOrdered, sort_free-holes, count-holes, count-reverse, length-holes,
}
use gc_united.Space.Merge.{Kept, Kept-refl, Kept-trans}
use gc_united.Space.Pass.{relist, IsPassed}
use gc_united.Space.MergeLoop.{last_passed, merge_blocks-Merged}
use gc_united.Space.Gaps.{Gapped, Gapped-front, Gapped-reverse}
use gc_united.Space.Search.{}

-- What one step of `coalesce` comes to: a well-formed space that has kept every live block.
abbrev Settled : FreeListSpace → List Handle → FreeListSpace → Type 0
Settled s bs s' =
    (bs' : List Handle) × IsSpace s' bs'
    × Kept s.heap.bytes bs s'.heap.bytes bs'
    × (s'.used ≡ s.used)
    × (Gapped s.heap.bytes 0 s.free → Gapped s'.heap.bytes 0 s'.free)

-- The last block of the region is free and goes back to the memory past the bump pointer.
shrink :
    (s : FreeListSpace) (before : List Handle) (last : Handle) (front : List Handle)
    → IsSpace s (before ++ last ∷ [])
    → free_at s.heap.bytes last ≡ true
    → s.free ≡ front ++ last ∷ []
    → Settled s (before ++ last ∷ []) (record s { free = front; bump = last })
shrink s before last front is free listed =
    let m = s.heap.bytes in
    let (chain, block, end) = Chain-split m before last [] 0 s.bump is.chain in
    let big = block.big in
    let one : (a : ℕ) → free_count m a (last ∷ []) ≡ one_if (a == last) =
      λ a. rw free (ground arith) in
    let none_live : live_bytes m (last ∷ []) ≡ 0 = rw free (omega arith) in
    let within = is.within in
    (
      before,
      record {
        chain = chain;
        within = omega arith;
        whole = is.whole;
        addressable = is.addressable;
        listed = λ a. omega (
          arith,
          is.listed a,
          ap (count a) listed,
          count-append a front (last ∷ []),
          free_count-append m a before (last ∷ []),
          one a,
        );
        accounted = omega (arith, is.accounted, live_bytes-append m before (last ∷ []), none_live);
        bytes = is.bytes;
      },
      λ b mem live.
          let not_last : (b == last) ≡ false = elim (ℕ_discrete b last) [
            | yes p ↦ cc
            | no ne ↦ ground arith
          ] in
          (ground (arith, has-append b before (last ∷ [])), live, refl, λ x p q. refl),
      refl,
      λ gaps. Gapped-front m 0 front (last ∷ []) (subst (Gapped m 0) listed gaps),
    )

give_back-Settled :
    (s : FreeListSpace) (bs : List Handle)
    → IsSpace s bs
    → (s' : FreeListSpace) × (give_back s ≡ ok s') × Settled s bs s'
unfolding give_back unsnoc
give_back-Settled s bs is = elim (List-cases s.free) [
  | inl empty ↦
      let none_free : unsnoc s.free ≡ none = ap unsnoc empty in
      (s, rw (give_back, none_free) refl, (bs, is, Kept-refl s.heap.bytes bs, refl, λ gaps. gaps))
  | inr (x, xs, listed) ↦
      let (front, last, ends, whole) = unsnoc-append x xs in
      let at_end : unsnoc s.free ≡ some (front, last) = ap unsnoc listed ∙ ends in
      let shape : s.free ≡ front ++ last ∷ [] = listed ∙ whole in
      let n = size_at s.heap.bytes last in
      let on_list : has last s.free ≡ true =
        ap (has last) shape ∙ rw (has-append, ==-refl) (ground arith) in
      let (mem, free) = free_block_of_listed is last on_list in
      let (_, inside, block) = inside_of_has is last mem in
      let big = block.big in
      let within = is.within in
      let addressable = is.addressable in
      let room : last + header_size ≤ s.heap.len = omega arith in
      let end = add32-ok last n (omega arith) in
      elim (ℕ_discrete (last + n) s.bump) [
        | yes meets ↦
            let (before, all) = last_passed s.heap.bytes bs last s.bump is.chain mem meets in
            let hit : (last + n == s.bump) ≡ true = ground arith in
            (
              record s { free = front; bump = last },
              rw (give_back, at_end, size-ok s.heap last room, end, hit) refl,
              subst (λ l. Settled s l (record s { free = front; bump = last })) (sym all)
                  (shrink s before last front (subst (IsSpace s) all is) free shape),
            )
        | no gap ↦
            let miss : (last + n == s.bump) ≡ false = ground arith in
            (
              s,
              rw (give_back, at_end, size-ok s.heap last room, end, miss) refl,
              (bs, is, Kept-refl s.heap.bytes bs, refl, λ gaps. gaps),
            )
      ]
]

-- On a well-formed space whose flag `sorted` is true to its list, `coalesce` returns. The space is
-- well formed afterwards, as many bytes count as used, and every live block is still a block, with all
-- its bytes as they were. The free list is in address order, and no block of it ends where another
-- begins.
pub coalesce-IsSpace :
    (s : FreeListSpace) (bs : List Handle)
    → IsSpace s bs
    → IsOrdered s
    → (s' : FreeListSpace) × (merges : ℕ) × (bs' : List Handle) × (coalesce s ≡ ok (s', merges))
      × IsSpace s' bs'
      × Kept s.heap.bytes bs s'.heap.bytes bs'
      × (s'.used ≡ s.used)
      × Gapped s'.heap.bytes 0 s'.free
unfolding coalesce
coalesce-IsSpace s bs is ordered =
    let found = holes s.heap.bytes bs in
    let sorted = record s { free = found; sorted = true } in
    let same = sort_free-holes s bs is ordered in
    let counts : (a : ℕ) → count a s.free ≡ count a found =
      λ a. is.listed a ∙ sym (count-holes s.heap.bytes a bs) in
    let within = is.within in
    let addressable = is.addressable in
    let start : IsPassed sorted [] bs 0 [] = record {
      space = relist s bs found true is counts;
      passed = refl;
      ahead = is.chain;
      counts = λ a. omega arith;
      known = λ p mem. cc;
      spaced = tt;
    } in
    let (m, done, merges, bs1, runs, is1, kept1, spaced) =
      merge_blocks-Merged bs [] sorted 0 [] 0 start
        (omega (arith, length-holes s.heap.bytes bs 0 s.bump is.chain)) in
    let merged = record sorted { heap = write s.heap m; free = reverse done } in
    let (s', gives, (bs', is', kept', used, gapped)) = give_back-Settled merged bs1 (
      relist (record merged { free = done }) bs1 (reverse done) true is1
        (λ a. sym (count-reverse a done))) in
    (
      s',
      merges,
      bs',
      rw (same, runs, gives) refl,
      is',
      Kept-trans s.heap.bytes m s'.heap.bytes bs bs1 bs' kept1 kept',
      used,
      gapped (Gapped-reverse m done spaced),
    )
