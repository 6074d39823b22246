-- ===== src/Space/Pass.antt =====
-- crates/gc-core/src/space.rs: a round of the loop of `coalesce`.
use mathlib.Core.List
use mathlib.Core.List.{reverse}
use gc_united.Base.{
  ℕ, ◌≤◌, ◌+◌, ◌≡◌, refl, ap, sym, ◌∙◌, ◌⊎◌, inl, inr, arith, Bool, true, ◌==◌, List, [], ◌∷◌, ◌++◌,
  has, has-append, count, count-append, one_if, subst, ok, ℕ_discrete, ==-refl,
}
use gc_united.Heap
use gc_united.Heap.{
  Memory, Heap, Handle, header_size, align, null_addr, write, flag_free, off_flags,
}
use gc_united.Heap.Views.{size_at}
use gc_united.Heap.Emplace.{emplace_block-IsHeader}
use gc_united.Heap.Chain.{
  Chain, free_at, Chain-le, Chain-has, Chain-split, Chain-append, Chain-frame,
}
use gc_united.Space.{FreeListSpace, merge_blocks}
use gc_united.Space.Invariant.{IsSpace}
use gc_united.Space.Carve.{free-of-IsHeader, IsBlock-of-IsHeader}
use gc_united.Space.Alloc.{inside_of_has}
use gc_united.Space.Holes.{holes, holes-frame}
use gc_united.Space.Merge.{Spaced, Spaced-frame, Spaced-below, Kept, joined-IsSpace, joined-Kept}

-- The order of the free list does not matter to the invariant.
pub relist :
    (s : FreeListSpace) (bs : List Handle) (free : List Handle) (sorted : Bool)
    → IsSpace s bs
    → ((a : ℕ) → count a s.free ≡ count a free)
    → IsSpace (record s { free = free; sorted = sorted }) bs
relist s bs free sorted is same = record {
  chain = is.chain;
  within = is.within;
  whole = is.whole;
  addressable = is.addressable;
  listed = λ a. sym (same a) ∙ is.listed a;
  accounted = is.accounted;
  bytes = is.bytes;
}

-- The loop of `coalesce` from a state of it on: it returns, with a well-formed space whose free list
-- is what it has merged, and has kept every live block of `all`.
abbrev pub Merged : FreeListSpace → List Handle → List Handle → ℕ → List Handle → Type 0
Merged s all merged merges blocks =
    (m : Memory) × (done : List Handle) × (total : ℕ) × (bs : List Handle) × (merge_blocks s.heap
        merged merges blocks
      ≡ ok (write s.heap m, done, total))
    × IsSpace (record s { heap = write s.heap m; free = done }) bs
    × Kept s.heap.bytes all m bs
    × Spaced m done

-- The state of the loop: the walk has passed the blocks `front`, among which are the merged ones.
pub record IsPassed (s : FreeListSpace) (front rest : List Handle) (lo : ℕ) (merged : List Handle)
    : Type 0 where
  pub space : IsSpace s (front ++ rest)
  pub passed : Chain s.heap.bytes 0 front lo
  pub ahead : Chain s.heap.bytes lo rest s.bump
  pub counts : (a : ℕ) → count a s.free ≡ count a merged + count a (holes s.heap.bytes rest)
  pub known : (p : ℕ) → has p merged ≡ true → (has p front ≡ true) × (free_at s.heap.bytes p ≡ true)
  pub spaced : Spaced s.heap.bytes merged

-- The block ahead is passed.
pub pass :
    (s : FreeListSpace) (front : List Handle) (b : Handle) (rest : List Handle) (lo : ℕ)
    (merged merged' : List Handle)
    → IsPassed s front (b ∷ rest) lo merged
    → ((a : ℕ) → count a s.free ≡ count a merged' + count a (holes s.heap.bytes rest))
    → ((p : ℕ)
        → has p merged' ≡ true
        → (has p merged ≡ true) ⊎ ((p ≡ b) × (free_at s.heap.bytes p ≡ true)))
    → Spaced s.heap.bytes merged'
    → IsPassed s (front ++ b ∷ []) rest (b + size_at s.heap.bytes b) merged'
pass s front b rest lo merged merged' st counts news spaced =
    let (e, block, after) = st.ahead in
    record {
      spaced = spaced;
      space = subst (IsSpace s) (sym (List.append_assoc front (b ∷ []) rest)) st.space;
      passed =
          Chain-append s.heap.bytes front (b ∷ []) 0 lo (b + size_at s.heap.bytes b) st.passed
            (e, block, refl);
      ahead = after;
      counts = counts;
      known = λ p mem. elim (news p mem) [
        | inl old ↦ let (before, free) = st.known p old in (rw (has-append, before) refl, free)
        | inr (same, free) ↦ (rw (has-append, same, ==-refl) (ground arith), free)
      ];
    }

-- The block ahead is free and begins where the last merged one ends.
pub join :
    (s : FreeListSpace) (front : List Handle) (prev b : Handle) (rest : List Handle) (lo : ℕ)
    (merged : List Handle)
    → IsPassed s (front ++ prev ∷ []) (b ∷ rest) lo (prev ∷ merged)
    → prev + size_at s.heap.bytes prev ≡ b
    → free_at s.heap.bytes b ≡ true
    → (m : Memory) × (Heap.emplace_block s.heap prev
          (size_at s.heap.bytes prev + size_at s.heap.bytes b)
        ≡ ok (write s.heap m))
      × IsPassed
          (record s { heap = write s.heap m; free = (prev ∷ merged) ++ holes m rest })
          (front ++ prev ∷ [])
          rest
          (b + size_at s.heap.bytes b)
          (prev ∷ merged)
      × Kept s.heap.bytes ((front ++ prev ∷ []) ++ b ∷ rest) m ((front ++ prev ∷ []) ++ rest)
      × (holes m rest ≡ holes s.heap.bytes rest)
join s front prev b rest lo merged st side b_free =
    let m = s.heap.bytes in
    let n = size_at m prev in
    let k = size_at m b in
    let (_, prev_free) = st.known prev (rw ==-refl refl) in
    let shape = List.append_assoc front (prev ∷ []) (b ∷ rest) in
    let shape' = List.append_assoc front (prev ∷ []) rest in
    let is = subst (IsSpace s) shape st.space in
    let in_all : has prev (front ++ prev ∷ b ∷ rest) ≡ true =
      rw (has-append, ==-refl) (ground arith) in
    let (aligned, inside, block) = inside_of_has is prev in_all in
    let (before, _, _) = Chain-split m front prev [] 0 lo st.passed in
    let (e, block', after) = st.ahead in
    let end = Chain-le m rest (b + k) s.bump after in
    let within = is.within in
    let big = block.big in
    let big' = block'.big in
    let (m', runs, header, change, bytes) =
      emplace_block-IsHeader s.heap prev (n + k) aligned (omega arith)
        (omega (arith, block.whole, block'.whole)) (omega arith) is.addressable in
    let same_holes = holes-frame change rest (b + k) s.bump (omega arith) after in
    let free = (prev ∷ merged) ++ holes m' rest in
    let b_list : holes m (b ∷ rest) ≡ b ∷ holes m rest = rw b_free refl in
    let counts : (a : ℕ) → count a free + one_if (a == b) ≡ count a s.free = λ a. omega (
      arith,
      count-append a (prev ∷ merged) (holes m' rest),
      ap (count a) same_holes,
      ap (count a) b_list,
      st.counts a,
    ) in
    let below : (y : Handle) → has y merged ≡ true → y + header_size ≤ prev = λ y mem.
      let (here, _) = st.known y (ground arith) in
      let (_, _, block_y) = Chain-has m (front ++ prev ∷ []) 0 lo y st.passed here in
      let big_y = block_y.big in omega (arith, Spaced-below m prev merged st.spaced y mem) in
    let sized = header.sized in
    let block2 =
      IsBlock-of-IsHeader header (omega arith) (omega (arith, block.whole, block'.whole)) in
    (
      m',
      runs,
      record {
        space = subst (IsSpace (record s { heap = write s.heap m'; free = free })) (sym shape') (
            joined-IsSpace s front rest prev b is side prev_free b_free m' header change
              (bytes is.bytes) free counts);
        passed =
            Chain-append m' front (prev ∷ []) 0 prev (b + k)
              (Chain-frame change front 0 prev (inl (omega arith)) before)
              (refl, block2, omega (arith, sized));
        spaced = Spaced-frame change prev merged below st.spaced;
        ahead = Chain-frame change rest (b + k) s.bump (inr (omega arith)) after;
        counts = λ a. count-append a (prev ∷ merged) (holes m' rest);
        known = λ p mem.
            let (here, free_p) = st.known p mem in
            (
              here,
              elim (ℕ_discrete p prev) [
                | yes same ↦ rw same (free-of-IsHeader header)
                | no other ↦
                    let early : has p front ≡ true =
                      ground (arith, has-append p front (prev ∷ [])) in
                    let (_, hi, is_block) = Chain-has m front 0 prev p before early in
                    let big_p = is_block.big in
                    ap (λ f. Heap.has_bit f flag_free) (change (p + off_flags) (inl (omega arith)))
                    ∙ free_p
              ],
            );
      },
      subst (λ l. Kept m l m' ((front ++ prev ∷ []) ++ rest)) (sym shape)
          (subst (Kept m (front ++ prev ∷ b ∷ rest) m') (sym shape') (
            joined-Kept s front rest prev b is side prev_free b_free m' header change
              (bytes is.bytes) free counts)),
      same_holes,
    )
