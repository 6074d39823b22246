-- ===== src/Space/Audit.antt =====
-- crates/gc-core/src/space.rs: what `validate` finds in a well-formed space.
use gc_united.Base.{
  ℕ, zero, suc, ◌+◌, ◌≤◌, ◌<◌, ◌≡◌, refl, sym, ◌∙◌, ap, inl, inr, arith, true, if◌then◌else◌, ◌>>=◌,
  Bool-cases, List, [], ◌∷◌, has, ok, u32_values, add32-ok, lt→ltb, le→ltb,
}
use gc_united.Heap.{Memory, Heap, Handle, header_size, is_aligned, flag_free}
use gc_united.Heap.Views.{size_at, size-ok, flag-ok}
use gc_united.Heap.Chain.{Chain, Chain-le, Chain-has, free_at, walk-Chain}
use gc_united.Space.{
  FreeListSpace, valid, walk_free, keep_live, sum_sizes, live_blocks, walk_live_bytes,
}
use gc_united.Space.Invariant.{live_bytes, live_bytes-le}
use gc_united.Space.Holes.{holes}

-- The blocks among `bs` that are not free.
abbrev pub lives : Memory → List Handle → List Handle
lives m [] = []
lives m (b ∷ bs) = if free_at m b then lives m bs else b ∷ lives m bs

module _ (hp : Heap) (hi : ℕ) (within : hi ≤ hp.len) (small : hi + header_size < u32_values) where
  -- The walk of `validate` over a tiled region meets every free block.
  pub walk_free-holes :
      (fuel lo : ℕ) (bs : List Handle)
      → Chain hp.bytes lo bs hi
      → hi < lo + fuel
      → walk_free fuel hp lo hi ≡ ok (valid, holes hp.bytes bs)
  unfolding walk_free
  walk_free-holes zero lo bs c enough = absurd (omega (arith, Chain-le hp.bytes bs lo hi c))
  walk_free-holes (suc fuel) lo [] c enough = rw (walk_free, le→ltb lo hi (omega arith)) refl
  walk_free-holes (suc fuel) lo (a ∷ bs) (e, block, c) enough =
      let n = size_at hp.bytes a in
      let big = block.big in
      let le = Chain-le hp.bytes bs (a + n) hi c in
      let round : is_aligned n ≡ true = ground (arith, block.whole) in
      rw (← e) (
        rw (walk_free, lt→ltb a hi (omega arith), size-ok hp a (omega arith))
          (rw
            (
              ◌>>=◌,
              le→ltb n header_size big,
              round,
              add32-ok a n (omega arith),
              le→ltb hi (a + n) le,
            )
            (rw
              (
                flag-ok hp a (omega arith) flag_free,
                walk_free-holes fuel (a + n) bs c (omega arith),
              )
              refl)))

  keep_live-lives :
      (bs : List Handle)
      → ((b : Handle) → has b bs ≡ true → b + header_size ≤ hp.len)
      → keep_live hp bs ≡ ok (lives hp.bytes bs)
  unfolding keep_live
  keep_live-lives [] inside = refl
  keep_live-lives (b ∷ bs) inside =
      rw
        (
          flag-ok hp b (inside b (ground arith)) flag_free,
          keep_live-lives bs (λ c p. inside c (ground arith)),
        )
        refl

  sum_sizes-live_bytes :
      (acc : ℕ) (bs : List Handle)
      → ((b : Handle) → has b bs ≡ true → b + header_size ≤ hp.len)
      → acc + live_bytes hp.bytes bs < u32_values
      → sum_sizes hp acc (lives hp.bytes bs) ≡ ok (acc + live_bytes hp.bytes bs)
  unfolding sum_sizes
  sum_sizes-live_bytes acc [] inside fits = ap ok (omega arith)
  sum_sizes-live_bytes acc (b ∷ bs) inside fits =
      let m = hp.bytes in
      let n = size_at m b in
      elim (Bool-cases (free_at m b)) [
        | inl freed ↦
            let kept : lives m (b ∷ bs) ≡ lives m bs = rw freed refl in
            let sum : live_bytes m (b ∷ bs) ≡ live_bytes m bs = rw freed (omega arith) in
            ap (sum_sizes hp acc) kept
            ∙ sum_sizes-live_bytes acc bs (λ c p. inside c (ground arith))
                (omega (arith, sum, fits))
            ∙ ap (λ k. ok (acc + k)) (sym sum)
        | inr live ↦
            let kept : lives m (b ∷ bs) ≡ b ∷ lives m bs = rw live refl in
            let sum : live_bytes m (b ∷ bs) ≡ n + live_bytes m bs = rw live refl in
            let rest =
              sum_sizes-live_bytes (acc + n) bs (λ c p. inside c (ground arith))
                (omega (arith, sum, fits)) in
            let adds : sum_sizes hp acc (b ∷ lives m bs) ≡ ok (acc + n + live_bytes m bs) =
              rw (size-ok hp b (inside b (ground arith)), add32-ok acc n (omega (arith, sum, fits)))
                rest in
            ap (sum_sizes hp acc) kept ∙ adds ∙ ap ok (omega (arith, sum))
      ]

-- The live bytes of a tiled region, as the walk adds them up.
pub walk_live_bytes-live_bytes :
    (s : FreeListSpace) (bs : List Handle)
    → Chain s.heap.bytes 0 bs s.bump
    → s.bump ≤ s.heap.len
    → s.bump + header_size < u32_values
    → walk_live_bytes s ≡ ok (live_bytes s.heap.bytes bs)
unfolding walk_live_bytes live_blocks
walk_live_bytes-live_bytes s bs c within small =
    let inside : (b : Handle) → has b bs ≡ true → b + header_size ≤ s.heap.len = λ b p.
      let (_, end, block) = Chain-has s.heap.bytes bs 0 s.bump b c p in
      let big = block.big in omega arith in
    let below = live_bytes-le s.heap.bytes bs 0 s.bump c in
    rw
      (
        walk-Chain s.heap bs 0 s.bump c within small,
        keep_live-lives s.heap s.bump within small bs inside,
        sum_sizes-live_bytes s.heap s.bump within small 0 bs inside (omega arith),
      )
      (ap ok (omega arith))
