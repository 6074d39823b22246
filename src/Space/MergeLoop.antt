-- ===== src/Space/MergeLoop.antt =====
-- crates/gc-core/src/space.rs: the loop of `coalesce`.
use mathlib.Core.List
use mathlib.Core.List.{reverse}
use gc_united.Base.{
  ℕ, suc, ◌+◌, ◌≤◌, ◌<◌, ◌≡◌, refl, ap, sym, ◌∙◌, inl, inr, arith, true, false, ◌==◌, List, [], ◌∷◌,
  ◌++◌, has, count, split_at, subst, ℕ_discrete, Bool-cases, length, u64_values, add32-ok, add64-ok,
  ==-refl,
}
use gc_united.Heap.{Memory, Handle, header_size, write}
use gc_united.Heap.Views.{size_at, size-ok}
use gc_united.Heap.Chain.{Chain, free_at, Chain-le, Chain-has, Chain-split}
use gc_united.Space.{FreeListSpace, merge_blocks}
use gc_united.Space.Holes.{holes}
use gc_united.Space.Merge.{Spaced, Kept-refl, Kept-trans}
use gc_united.Space.Pass.{relist, Merged, IsPassed, pass, join}

pub Chain-none : (m : Memory) (bs : List Handle) (lo hi : ℕ) → Chain m lo bs hi → lo ≡ hi → bs ≡ []
Chain-none m [] lo hi c e = refl
Chain-none m (b ∷ bs) lo hi (first, block, c) e =
    let big = block.big in absurd (omega (arith, Chain-le m bs (b + size_at m b) hi c))

-- A merged block that ends where the walk stands is the last one passed.
pub last_passed :
    (m : Memory) (front : List Handle) (prev lo : ℕ)
    → Chain m 0 front lo
    → has prev front ≡ true
    → prev + size_at m prev ≡ lo
    → (before : List Handle) × (front ≡ before ++ prev ∷ [])
last_passed m front prev lo c mem side =
    let (before, back, whole) = split_at prev front mem in
    let (_, _, after) = Chain-split m before prev back 0 lo (subst (λ l. Chain m 0 l lo) whole c) in
    let none_left = Chain-none m back (prev + size_at m prev) lo after side in
    (before, whole ∙ ap (λ l. before ++ prev ∷ l) none_left)

-- What the loop does from the blocks `rest` on.
abbrev Loop : List Handle → Type 0
Loop rest =
    (front : List Handle) (s : FreeListSpace) (lo : ℕ) (merged : List Handle) (merges : ℕ)
    → IsPassed s front rest lo merged
    → merges + length (holes s.heap.bytes rest) < u64_values
    → Merged s (front ++ rest) merged merges (holes s.heap.bytes rest)

-- The block ahead is free. `loop` is the rest of the run.
module _ (b : Handle) (rest : List Handle) (loop : Loop rest) (front : List Handle)
    (s : FreeListSpace) (lo merges : ℕ) (free : free_at s.heap.bytes b ≡ true)
    (small : merges + suc (length (holes s.heap.bytes rest)) < u64_values) where
  own_list : holes s.heap.bytes (b ∷ rest) ≡ b ∷ holes s.heap.bytes rest
  own_list = rw free refl

  -- It starts a merged block of its own.
  apart :
      (old : List Handle)
      → IsPassed s front (b ∷ rest) lo old
      → Spaced s.heap.bytes (b ∷ old)
      → Merged s (front ++ b ∷ rest) (b ∷ old) merges (holes s.heap.bytes rest)
  apart old st spaced =
      let st' =
        pass s front b rest lo old (b ∷ old) st
          (λ a. omega (arith, st.counts a, ap (count a) own_list))
          (λ p mem. elim (ℕ_discrete p b) [
            | yes same ↦ inr (same, rw same free)
            | no other ↦ inl (ground arith)
          ])
          spaced in
      subst (λ l. Merged s l (b ∷ old) merges (holes s.heap.bytes rest))
        (List.append_assoc front (b ∷ []) rest)
        (loop (front ++ b ∷ []) s (b + size_at s.heap.bytes b) (b ∷ old) merges st' (omega arith))

  -- Where a merged block is.
  reach :
      (all : List Handle) (prev : Handle) (old : List Handle)
      → IsPassed s all (b ∷ rest) lo (prev ∷ old)
      → (prev + header_size ≤ s.heap.len) × (prev + size_at s.heap.bytes prev ≤ lo)
  reach all prev old st =
      let m = s.heap.bytes in
      let (prev_in, _) = st.known prev (rw ==-refl refl) in
      let (_, end, block) = Chain-has m all 0 lo prev st.passed prev_in in
      let big = block.big in
      let far = Chain-le m (b ∷ rest) lo s.bump st.ahead in
      let within = st.space.within in (omega arith, end)

  -- It goes into the merged block `prev`.
  side_by_side :
      (before : List Handle) (prev : Handle) (old : List Handle)
      → IsPassed s (before ++ prev ∷ []) (b ∷ rest) lo (prev ∷ old)
      → prev + size_at s.heap.bytes prev ≡ b
      → Merged s
          ((before ++ prev ∷ []) ++ b ∷ rest)
          (prev ∷ old)
          merges
          (b ∷ holes s.heap.bytes rest)
  unfolding merge_blocks
  side_by_side before prev old st side =
      let m = s.heap.bytes in
      let n = size_at m prev in
      let k = size_at m b in
      let all = before ++ prev ∷ [] in
      let (room, end) = reach all prev old st in
      let (e, block, after) = st.ahead in
      let big = block.big in
      let far = Chain-le m rest (b + k) s.bump after in
      let within = st.space.within in
      let addressable = st.space.addressable in
      let (m1, emplaces, st', kept, same) = join s before prev b rest lo old st side free in
      let s1 = record s { heap = write s.heap m1; free = (prev ∷ old) ++ holes m1 rest } in
      let (m2, done, total, bs, runs, is, kept', spaced) =
        loop all s1 (b + k) (prev ∷ old) (merges + 1) st' (omega (arith, ap length same)) in
      let meets : (prev + n == b) ≡ true = rw side (==-refl b) in
      (
        m2,
        done,
        total,
        bs,
        rw
            (
              size-ok s.heap prev room,
              add32-ok prev n (omega arith),
              meets,
              size-ok s.heap b (omega arith),
              add32-ok n k (omega arith),
              emplaces,
              add64-ok merges 1 (omega arith),
            )
            (ap (merge_blocks (write s.heap m1) (prev ∷ old) (merges + 1)) (sym same) ∙ runs),
        is,
        Kept-trans m m1 m2 (all ++ b ∷ rest) (all ++ rest) bs kept kept',
        spaced,
      )

  found :
      (merged : List Handle)
      → IsPassed s front (b ∷ rest) lo merged
      → Merged s (front ++ b ∷ rest) merged merges (b ∷ holes s.heap.bytes rest)
  unfolding merge_blocks
  found [] st = apart [] st tt
  found (prev ∷ old) st =
      let m = s.heap.bytes in
      let (prev_in, _) = st.known prev (rw ==-refl refl) in
      let (e, block, after) = st.ahead in
      elim (ℕ_discrete (prev + size_at m prev) b) [
        | yes side ↦
            let (before, whole) = last_passed m front prev lo st.passed prev_in (side ∙ e) in
            subst (λ l. Merged s (l ++ b ∷ rest) (prev ∷ old) merges (b ∷ holes m rest)) (sym whole)
              (side_by_side before prev old
                (subst (λ l. IsPassed s l (b ∷ rest) lo (prev ∷ old)) whole st) side)
        | no gap ↦
            let (room, end) = reach front prev old st in
            let within = st.space.within in
            let addressable = st.space.addressable in
            let far = Chain-le m (b ∷ rest) lo s.bump st.ahead in
            let misses : (prev + size_at m prev == b) ≡ false = ground arith in
            let (m', done, total, bs, runs, is, kept, spaced) =
              apart (prev ∷ old) st (omega (arith, e), st.spaced) in
            (
              m',
              done,
              total,
              bs,
              rw (size-ok s.heap prev room, add32-ok prev (size_at m prev) (omega arith), misses)
                  runs,
              is,
              kept,
              spaced,
            )
      ]

pub merge_blocks-Merged :
    (rest front : List Handle) (s : FreeListSpace) (lo : ℕ) (merged : List Handle) (merges : ℕ)
    → IsPassed s front rest lo merged
    → merges + length (holes s.heap.bytes rest) < u64_values
    → Merged s (front ++ rest) merged merges (holes s.heap.bytes rest)
unfolding merge_blocks
merge_blocks-Merged [] front s lo merged merges st small = (
  s.heap.bytes,
  merged,
  merges,
  front ++ [],
  refl,
  relist s (front ++ []) merged s.sorted st.space (λ a. omega (arith, st.counts a)),
  Kept-refl s.heap.bytes (front ++ []),
  st.spaced,
)
merge_blocks-Merged (b ∷ rest) front s lo merged merges st small =
    elim (Bool-cases (free_at s.heap.bytes b)) [
      | inr live ↦
          let list : holes s.heap.bytes (b ∷ rest) ≡ holes s.heap.bytes rest = rw live refl in
          let st' =
            pass s front b rest lo merged merged st
              (λ a. omega (arith, st.counts a, ap (count a) list)) (λ p mem. inl mem) st.spaced in
          let later =
            merge_blocks-Merged rest (front ++ b ∷ []) s (b + size_at s.heap.bytes b) merged merges
              st' (omega (arith, small, ap length list)) in
          subst (λ l. Merged s l merged merges (holes s.heap.bytes (b ∷ rest)))
            (List.append_assoc front (b ∷ []) rest)
            (subst (Merged s ((front ++ b ∷ []) ++ rest) merged merges) (sym list) later)
      | inl free ↦
          let list : holes s.heap.bytes (b ∷ rest) ≡ b ∷ holes s.heap.bytes rest = rw free refl in
          subst (Merged s (front ++ b ∷ rest) merged merges) (sym list) (
            found b rest (merge_blocks-Merged rest) front s lo merges free
              (omega (arith, small, ap length list)) merged st)
    ]
