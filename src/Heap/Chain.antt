-- ===== src/Heap/Chain.antt =====
-- Regions that a linear walk can cross: blocks laid end to end, each with its true size.
use gc_united.Base.{
  ℕ, zero, suc, ◌+◌, ◌%◌, ◌≤◌, ◌<◌, ◌≡◌, sym, ◌⊎◌, arith, Bool, ℕ_discrete, true, ◌&&◌, List, [],
  ◌∷◌, ◌++◌, has, ok, u32_values, leb, add32-ok, lt→ltb, le→ltb,
}
use gc_united.Heap.Arena.{Memory, Heap, Handle, header_size, align, is_aligned, flag_free, off_size}
use gc_united.Heap.Header.{has_bit}
use gc_united.Heap.Place.{walk_from, walk}
use gc_united.Heap.Words.{SameOutside, frame32}
use gc_united.Heap.Views.{size_at, flags_at, size-ok}

pub record IsBlock (m : Memory) (a : Handle) : Type 0 where
  pub big : header_size ≤ size_at m a
  pub whole : size_at m a % align ≡ 0

-- The blocks `bs` fill `[lo, hi)`.
abbrev pub Chain : Memory → ℕ → List Handle → ℕ → Type 0
Chain m lo [] hi = lo ≡ hi
Chain m lo (a ∷ bs) hi = (a ≡ lo) × IsBlock m a × Chain m (a + size_at m a) bs hi

-- Whether the block at `a` is flagged free.
abbrev pub free_at : Memory → Handle → Bool
free_at m a = has_bit (flags_at m a) flag_free

module _ (m : Memory) where
  pub Chain-le : (bs : List Handle) (lo hi : ℕ) → Chain m lo bs hi → lo ≤ hi
  Chain-le [] lo hi c = omega arith
  Chain-le (a ∷ bs) lo hi (e, b, c) = omega (arith, b.big, Chain-le bs _ hi c)

  -- A block of the chain lies inside the region.
  pub Chain-has :
      (bs : List Handle) (lo hi a : ℕ)
      → Chain m lo bs hi
      → has a bs ≡ true
      → (lo ≤ a) × (a + size_at m a ≤ hi) × IsBlock m a
  Chain-has [] lo hi a c h = cc
  Chain-has (x ∷ bs) lo hi a (e, b, c) h = elim (ℕ_discrete a x) [
    | yes p ↦ rw p (omega arith, Chain-le bs _ hi c, b)
    | no ne ↦
        let (p, q, r) = Chain-has bs (x + size_at m x) hi a c (ground arith) in
        (omega (arith, b.big), q, r)
  ]

  pub Chain-append :
      (xs ys : List Handle) (lo mid hi : ℕ)
      → Chain m lo xs mid
      → Chain m mid ys hi
      → Chain m lo (xs ++ ys) hi
  Chain-append [] ys lo mid hi c d = rw c d
  Chain-append (x ∷ xs) ys lo mid hi (e, b, c) d = (e, b, Chain-append xs ys _ mid hi c d)

  pub Chain-split :
      (xs : List Handle) (b : Handle) (ys : List Handle) (lo hi : ℕ)
      → Chain m lo (xs ++ b ∷ ys) hi
      → Chain m lo xs b × IsBlock m b × Chain m (b + size_at m b) ys hi
  Chain-split [] b ys lo hi (e, is, c) = (sym e, is, c)
  Chain-split (x ∷ xs) b ys lo hi (e, is, c) =
      let (front, block, back) = Chain-split xs b ys _ hi c in ((e, is, front), block, back)

-- A chain survives any change outside its region.
pub Chain-frame :
    {m m' : Memory} {p q : ℕ} (s : SameOutside p q m m') (bs : List Handle) (lo hi : ℕ)
    → (hi ≤ p) ⊎ (q ≤ lo)
    → Chain m lo bs hi
    → Chain m' lo bs hi
Chain-frame s [] lo hi h c = c
Chain-frame {m} {m'} s (a ∷ bs) lo hi h (e, b, c) =
    let inside = Chain-le m bs (a + size_at m a) hi c in
    let keep : size_at m' a ≡ size_at m a = frame32 s (a + off_size) (ground arith) in
    (
      e,
      record { big = rw keep b.big; whole = rw keep b.whole },
      rw keep (Chain-frame s bs (a + size_at m a) hi (ground arith) c),
    )

-- On a region that the blocks `bs` fill, `walk` yields exactly `bs`: it reads every block, live or
-- free, once, in address order, and ends at the end of the region.
pub walk_from-Chain :
    (fuel : ℕ) (hp : Heap) (bs : List Handle) (lo hi : ℕ)
    → Chain hp.bytes lo bs hi
    → hi ≤ hp.len
    → hi + header_size < u32_values
    → hi < fuel + lo
    → walk_from fuel hp lo hi ≡ ok bs
unfolding walk_from
walk_from-Chain zero hp bs lo hi c in_len small enough =
    absurd (omega (arith, Chain-le hp.bytes bs lo hi c))
walk_from-Chain (suc fuel) hp [] lo hi c in_len small enough =
    rw (add32-ok lo header_size (omega arith), lt→ltb hi (lo + header_size) (omega arith))
walk_from-Chain (suc fuel) hp (a ∷ bs) lo hi (e, b, c) in_len small enough =
    let n = size_at hp.bytes a in
    let le = Chain-le hp.bytes bs (a + n) hi c in
    let good : (leb header_size n && is_aligned n) ≡ true = ground arith in
    rw (
      ← e,
      add32-ok a header_size (omega arith),
      le→ltb hi (a + header_size) (omega arith),
      size-ok hp a (omega arith),
      good,
      add32-ok a n (omega arith),
      walk_from-Chain fuel hp bs (a + n) hi c in_len small (omega arith),
    )

-- Where blocks fill the region from `lo` to `hi`, inside the arena and clear of the end of `u32`,
-- `walk` from `lo` to `hi` returns exactly those blocks, in address order.
pub walk-Chain :
    (hp : Heap) (bs : List Handle) (lo hi : ℕ)
    → Chain hp.bytes lo bs hi
    → hi ≤ hp.len
    → hi + header_size < u32_values
    → walk hp lo hi ≡ ok bs
unfolding walk
walk-Chain hp bs lo hi c in_len small =
    walk_from-Chain (suc hi) hp bs lo hi c in_len small (omega arith)
