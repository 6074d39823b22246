-- ===== src/Space/Return.antt =====
-- crates/gc-core/src/space.rs: what a block has to look like for the space to take it back.
use gc_united.Base.{
  ℕ, ◌+◌, ◌-◌, ◌≤◌, ◌≡◌, refl, sym, arith, Bool, true, false, ◌==◌, List, [], ◌∷◌, ◌++◌, has, count,
  one_if, split_at, subst,
}
use gc_united.Heap.{Memory, Handle, write}
use gc_united.Heap.Words.{SameOutside, IsBytes}
use gc_united.Heap.Views.{size_at}
use gc_united.Heap.Chain.{Chain, free_at, Chain-split}
use gc_united.Space.{FreeListSpace}
use gc_united.Space.Invariant.{
  IsSpace, free_count, live_bytes, live_bytes-append, free_count-replace, live_bytes-replace,
  Chain-replace,
}

-- The block `h` is flagged free in `m'` at its old size, and nothing outside it has changed.
pub record IsReturned (m m' : Memory) (h : Handle) : Type 0 where
  pub freed : free_at m' h ≡ true
  pub sized : size_at m' h ≡ size_at m h
  pub outside : SameOutside h (h + size_at m h) m m'
  pub bytes : IsBytes m'

-- `s` with the block `h` taken off `used`.
abbrev pub less : FreeListSpace → Handle → Memory → List Handle → Bool → FreeListSpace
less s h m' free sorted = record s {
  heap = write s.heap m';
  free = free;
  sorted = sorted;
  used = s.used - size_at s.heap.bytes h;
}

module _ (s : FreeListSpace) (front : List Handle) (h : Handle) (back : List Handle)
    (is : IsSpace s (front ++ h ∷ back)) (live : free_at s.heap.bytes h ≡ false) where
  alone : live_bytes s.heap.bytes (h ∷ []) ≡ size_at s.heap.bytes h
  alone = rw live (omega arith)

  size-le_used_middle : size_at s.heap.bytes h ≤ s.used
  size-le_used_middle =
      omega (arith, is.accounted, alone, live_bytes-append s.heap.bytes front (h ∷ back))

  returned_middle :
      (m' : Memory) (free : List Handle) (sorted : Bool)
      → IsReturned s.heap.bytes m' h
      → ((a : ℕ) → count a free ≡ count a s.free + one_if (a == h))
      → IsSpace (less s h m' free sorted) (front ++ h ∷ back)
  returned_middle m' free sorted ret counts =
      let m = s.heap.bytes in
      let n = size_at m h in
      let (before, block, after) = Chain-split m front h back 0 s.bump is.chain in
      let none_free : (a : ℕ) → free_count m a (h ∷ []) ≡ 0 = λ a. rw live (ground arith) in
      let gone : live_bytes m' (h ∷ []) ≡ 0 = rw ret.freed (omega arith) in
      let one : (a : ℕ) → free_count m' a (h ∷ []) ≡ one_if (a == h) =
        λ a. rw ret.freed (ground arith) in
      let same = ret.sized in
      let news : Chain m' h (h ∷ []) (h + n) =
        (refl, record { big = rw same block.big; whole = rw same block.whole }, omega arith) in
      record {
        chain = Chain-replace ret.outside 0 s.bump front (h ∷ []) (h ∷ []) back before after news;
        within = is.within;
        whole = is.whole;
        addressable = is.addressable;
        listed = λ a. omega (
          arith,
          is.listed a,
          counts a,
          none_free a,
          one a,
          free_count-replace ret.outside 0 s.bump front (h ∷ []) (h ∷ []) back before after news a,
        );
        accounted = omega (
          arith,
          is.accounted,
          alone,
          gone,
          size-le_used_middle,
          live_bytes-replace ret.outside 0 s.bump front (h ∷ []) (h ∷ []) back before after news,
        );
        bytes = ret.bytes;
      }

module _ (s : FreeListSpace) (bs : List Handle) (h : Handle) (is : IsSpace s bs)
    (member : has h bs ≡ true) (live : free_at s.heap.bytes h ≡ false) where
  pub size-le_used : size_at s.heap.bytes h ≤ s.used
  size-le_used =
      let (front, back, whole) = split_at h bs member in
      size-le_used_middle s front h back (subst (IsSpace s) whole is) live

  -- The space is well formed over the same blocks once `h` is on the free list.
  pub returned :
      (m' : Memory) (free : List Handle) (sorted : Bool)
      → IsReturned s.heap.bytes m' h
      → ((a : ℕ) → count a free ≡ count a s.free + one_if (a == h))
      → IsSpace (less s h m' free sorted) bs
  returned m' free sorted ret counts =
      let (front, back, whole) = split_at h bs member in
      subst (IsSpace (less s h m' free sorted)) (sym whole)
        (returned_middle s front h back (subst (IsSpace s) whole is) live m' free sorted ret counts)
