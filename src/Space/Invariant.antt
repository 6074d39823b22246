-- ===== src/Space/Invariant.antt =====
-- crates/gc-core/src/space.rs: what holds between the operations of the free-list space.
use gc_united.Base.{
  ℕ, ◌+◌, ◌%◌, ◌≤◌, ◌<◌, ◌≡◌, refl, ◌⊎◌, inl, inr, arith, true, ◌&&◌, ◌==◌, List, [], ◌∷◌, ◌++◌,
  has, count, one_if, if◌then◌else◌, ℕ_discrete,
}
use gc_united.Heap.{Memory, Handle, align, null_addr, off_flags, off_size}
use gc_united.Heap.Words.{SameOutside, IsBytes, frame32}
use gc_united.Heap.Views.{size_at}
use gc_united.Heap.Chain.{Chain, free_at, Chain-le, Chain-append, Chain-frame}
use gc_united.Space.{FreeListSpace}

-- The bytes in blocks that are not flagged free.
abbrev pub live_bytes : Memory → List Handle → ℕ
live_bytes m [] = 0
live_bytes m (b ∷ bs) = (if free_at m b then 0 else size_at m b) + live_bytes m bs

-- How often `a` stands among the blocks that are flagged free.
abbrev pub free_count : Memory → ℕ → List Handle → ℕ
free_count m a [] = 0
free_count m a (b ∷ bs) = one_if ((a == b) && free_at m b) + free_count m a bs

-- `bs` are the blocks of the region below the bump pointer. The free list holds exactly those that
-- are flagged free, and `used` is the size of the others.
pub record IsSpace (s : FreeListSpace) (bs : List Handle) : Type 0 where
  pub chain : Chain s.heap.bytes 0 bs s.bump
  pub within : s.bump ≤ s.heap.len
  pub whole : s.heap.len % align ≡ 0
  pub addressable : s.heap.len < null_addr
  pub listed : (a : ℕ) → count a s.free ≡ free_count s.heap.bytes a bs
  pub accounted : s.used ≡ live_bytes s.heap.bytes bs
  pub bytes : IsBytes s.heap.bytes

pub live_bytes-append :
    (m : Memory) (xs ys : List Handle) → live_bytes m (xs ++ ys) ≡ live_bytes m xs + live_bytes m ys
live_bytes-append m [] ys = omega arith
live_bytes-append m (x ∷ xs) ys = omega (arith, live_bytes-append m xs ys)

pub free_count-append :
    (m : Memory) (a : ℕ) (xs ys : List Handle)
    → free_count m a (xs ++ ys) ≡ free_count m a xs + free_count m a ys
free_count-append m a [] ys = omega arith
free_count-append m a (x ∷ xs) ys = omega (arith, free_count-append m a xs ys)

module _ {m m' : Memory} {p q : ℕ} (s : SameOutside p q m m') where
  pub free_count-frame :
      (a : ℕ) (bs : List Handle) (lo hi : ℕ)
      → (hi ≤ p) ⊎ (q ≤ lo)
      → Chain m lo bs hi
      → free_count m' a bs ≡ free_count m a bs
  free_count-frame a [] lo hi h c = refl
  free_count-frame a (b ∷ bs) lo hi h (e, is, c) =
      let le = Chain-le m bs (b + size_at m b) hi c in
      let big = is.big in
      rw (
        s (b + off_flags) (ground arith),
        free_count-frame a bs (b + size_at m b) hi (ground arith) c,
      )

  pub live_bytes-frame :
      (bs : List Handle) (lo hi : ℕ)
      → (hi ≤ p) ⊎ (q ≤ lo)
      → Chain m lo bs hi
      → live_bytes m' bs ≡ live_bytes m bs
  live_bytes-frame [] lo hi h c = refl
  live_bytes-frame (b ∷ bs) lo hi h (e, is, c) =
      let le = Chain-le m bs (b + size_at m b) hi c in
      let big = is.big in
      rw (
        s (b + off_flags) (ground arith),
        frame32 s (b + off_size) (ground arith),
        live_bytes-frame bs (b + size_at m b) hi (ground arith) c,
      )

-- A change inside `[p, q)` that turns the blocks `old` there into the blocks `new`.
module _ {m m' : Memory} {p q : ℕ} (s : SameOutside p q m m') (lo hi : ℕ)
    (xs old new ys : List Handle) (before : Chain m lo xs p) (after : Chain m q ys hi)
    (news : Chain m' p new q) where
  pub Chain-replace : Chain m' lo (xs ++ (new ++ ys)) hi
  Chain-replace =
      Chain-append m' xs (new ++ ys) lo p hi (Chain-frame s xs lo p (inl (omega arith)) before)
        (Chain-append m' new ys p q hi news (Chain-frame s ys q hi (inr (omega arith)) after))

  pub free_count-replace :
      (a : ℕ)
      → free_count m' a (xs ++ (new ++ ys)) + free_count m a old
        ≡ free_count m a (xs ++ (old ++ ys)) + free_count m' a new
  free_count-replace a = omega (
    arith,
    free_count-append m' a xs (new ++ ys),
    free_count-append m' a new ys,
    free_count-append m a xs (old ++ ys),
    free_count-append m a old ys,
    free_count-frame s a xs lo p (inl (omega arith)) before,
    free_count-frame s a ys q hi (inr (omega arith)) after,
  )

  pub live_bytes-replace :
      live_bytes m' (xs ++ (new ++ ys)) + live_bytes m old
      ≡ live_bytes m (xs ++ (old ++ ys)) + live_bytes m' new
  live_bytes-replace = omega (
    arith,
    live_bytes-append m' xs (new ++ ys),
    live_bytes-append m' new ys,
    live_bytes-append m xs (old ++ ys),
    live_bytes-append m old ys,
    live_bytes-frame s xs lo p (inl (omega arith)) before,
    live_bytes-frame s ys q hi (inr (omega arith)) after,
  )

-- What the free list names is a free block of the region.
pub has-of-free_count :
    (m : Memory) (a : ℕ) (bs : List Handle)
    → 0 < free_count m a bs
    → (has a bs ≡ true) × (free_at m a ≡ true)
has-of-free_count m a [] h = absurd (omega arith)
has-of-free_count m a (b ∷ bs) h = ground (arith, has-of-free_count m a bs)

pub live_bytes-le :
    (m : Memory) (bs : List Handle) (lo hi : ℕ) → Chain m lo bs hi → lo + live_bytes m bs ≤ hi
live_bytes-le m [] lo hi c = omega arith
live_bytes-le m (b ∷ bs) lo hi (e, is, c) =
    ground (arith, live_bytes-le m bs (b + size_at m b) hi c)

-- The blocks of an aligned region are aligned, and so is its end.
pub Chain-aligned :
    (m : Memory) (bs : List Handle) (lo hi : ℕ)
    → Chain m lo bs hi
    → lo % align ≡ 0
    → (hi % align ≡ 0) × ((a : ℕ) → has a bs ≡ true → a % align ≡ 0)
Chain-aligned m [] lo hi c z = (omega arith, λ a h. cc)
Chain-aligned m (b ∷ bs) lo hi (e, is, c) z =
    let whole = is.whole in
    let (end, inner) = Chain-aligned m bs (b + size_at m b) hi c (omega arith) in
    (end, λ a h. elim (ℕ_discrete a b) [ yes p ↦ omega arith | no ne ↦ inner a (ground arith) ])
