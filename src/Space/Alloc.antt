-- ===== src/Space/Alloc.antt =====
-- crates/gc-core/src/space.rs: `alloc` on every branch.
use gc_united.Base.{
  ℕ, ◌+◌, ◌%◌, ◌^◌, ◌≤◌, ◌<◌, ◌≡◌, refl, ◌∙◌, inl, inr, arith, ℕ_discrete, true, false, ◌==◌, List,
  [], ◌∷◌, ◌++◌, has, has-append, count, count-pos_of_has, one_if, some, ok, Bool-cases,
}
use gc_united.Heap.{Memory, Handle, header_size, align, null_addr, write, size_for}
use gc_united.Heap.Sizes.{size_for-IsFootprint}
use gc_united.Heap.Words.{SameOutside, SameOn, IsBytes}
use gc_united.Heap.Views.{size_at, slot_at}
use gc_united.Heap.Blocks.{IsHeader}
use gc_united.Heap.Emplace.{IsFresh}
use gc_united.Heap.Chain.{IsBlock, free_at, Chain-has, Chain-split}
use gc_united.Space.{FreeListSpace, alloc}
use gc_united.Space.Invariant.{
  IsSpace, free_count, live_bytes, free_count-replace, live_bytes-replace, Chain-replace,
  has-of-free_count, live_bytes-le, Chain-aligned,
}
use gc_united.Space.Carve.{Rest, pieces, carved, has-pieces}

-- `h` is a fresh object of `need` bytes in `s'`; the space is well formed, and each block of `s`
-- that was live is still a block, with every byte as it was.
pub record IsAllocated (s s' : FreeListSpace) (bs bs' : List Handle) (h need refs : ℕ)
    : Type 0 where
  pub space : IsSpace s' bs'
  pub fresh : IsHeader s'.heap.bytes h need refs 0
  pub slots : (j : ℕ) → j < refs → slot_at s'.heap.bytes h j ≡ null_addr
  pub member : has h bs' ≡ true
  pub used : s'.used ≡ s.used + need
  pub kept :
      (a : ℕ)
      → has a bs ≡ true
      → free_at s.heap.bytes a ≡ false
      → (has a bs' ≡ true) × SameOn a (a + size_at s.heap.bytes a) s.heap.bytes s'.heap.bytes

abbrev pub Allocated : FreeListSpace → List Handle → ℕ → ℕ → ℕ → Handle → Type 0
Allocated s bs refs ndata need h =
    (s' : FreeListSpace) × (bs' : List Handle) × (alloc s refs ndata ≡ ok (s', some h))
    × IsAllocated s s' bs bs' h need refs

module _ {s : FreeListSpace} {bs : List Handle} (is : IsSpace s bs) where
  -- What the free list names is a free block of the region.
  pub free_block_of_listed :
      (b : ℕ) → has b s.free ≡ true → (has b bs ≡ true) × (free_at s.heap.bytes b ≡ true)
  free_block_of_listed b h =
      has-of-free_count s.heap.bytes b bs (rw (← is.listed b) (count-pos_of_has b s.free h))

  pub inside_of_has :
      (b : ℕ)
      → has b bs ≡ true
      → (b % align ≡ 0) × (b + size_at s.heap.bytes b ≤ s.bump) × IsBlock s.heap.bytes b
  inside_of_has b member =
      let (lo, hi, block) = Chain-has s.heap.bytes bs 0 s.bump b is.chain member in
      ((Chain-aligned s.heap.bytes bs 0 s.bump is.chain (omega arith)).1 b member, hi, block)

  pub inside_of_listed : (b : ℕ) → has b s.free ≡ true → b + header_size ≤ s.heap.len
  inside_of_listed b h =
      let (aligned, hi, block) = inside_of_has b (free_block_of_listed b h).0 in
      let big = block.big in let within = is.within in omega arith

  pub used-le : s.used ≤ s.bump
  used-le = omega (arith, is.accounted, live_bytes-le s.heap.bytes bs 0 s.bump is.chain)

-- The block `b` of the free list holds the request.
module _ (s : FreeListSpace) (front : List Handle) (b : Handle) (back : List Handle)
    (refs ndata need : ℕ) (is : IsSpace s (front ++ b ∷ back))
    (sized : size_for refs ndata ≡ ok need) (small : refs < 2 ^ 16)
    (big : need ≤ size_at s.heap.bytes b) (freed : free_at s.heap.bytes b ≡ true)
    (rest : List Handle) (counts : (a : ℕ) → count a s.free ≡ one_if (a == b) + count a rest) where
  free_alone : (a : ℕ) → free_count s.heap.bytes a (b ∷ []) ≡ one_if (a == b)
  free_alone a = rw freed (ground arith)

  live_alone : live_bytes s.heap.bytes (b ∷ []) ≡ 0
  live_alone = rw freed (omega arith)

  keep :
      (m' : Memory)
      → SameOutside b (b + size_at s.heap.bytes b) s.heap.bytes m'
      → (a : ℕ) → has a (front ++ b ∷ back) ≡ true
      → free_at s.heap.bytes a ≡ false
      → (has a (front ++ (pieces b need (size_at s.heap.bytes b) ++ back)) ≡ true)
        × SameOn a (a + size_at s.heap.bytes a) s.heap.bytes m'
  keep m' change a mem live =
      let n = size_at s.heap.bytes b in
      let (before, block, after) = Chain-split s.heap.bytes front b back 0 s.bump is.chain in
      let two = has-append a front (b ∷ back) in
      let three = has-append a front (pieces b need n ++ back) in
      let four = has-append a (pieces b need n) back in
      elim (ℕ_discrete a b) [
        | yes e ↦ cc
        | no ne ↦ elim (Bool-cases (has a front)) [
          | inl early ↦
              let (lo, hi, is_block) = Chain-has s.heap.bytes front 0 b a before early in
              (rw (three, early), λ x p q. change x (inl (omega arith)))
          | inr late ↦
              let later : has a back ≡ true = ground arith in
              let (lo, hi, is_block) = Chain-has s.heap.bytes back (b + n) s.bump a after later in
              (rw (three, four, later) (ground arith), λ x p q. change x (inr (omega arith)))
        ]
      ]

  pub carve-Allocated :
      (m : Memory) (free : List Handle)
      → Rest m rest free b need (size_at s.heap.bytes b)
      → SameOutside (b + need) (b + size_at s.heap.bytes b) s.heap.bytes m
      → (IsBytes s.heap.bytes → IsBytes m)
      → (m' : Memory) (fresh : IsFresh m m' b need refs)
      → IsAllocated s
          (record s { heap = write s.heap m'; free = free; sorted = false; used = s.used + need })
          (front ++ b ∷ back)
          (front ++ (pieces b need (size_at s.heap.bytes b) ++ back))
          b
          need
          refs
  carve-Allocated m free left same bytes m' fresh =
      let n = size_at s.heap.bytes b in
      let (before, block, after) = Chain-split s.heap.bytes front b back 0 s.bump is.chain in
      let whole = block.whole in
      let print = size_for-IsFootprint refs ndata need sized in
      let cv = carved m m' rest free b need n refs print.aligned whole (omega arith) left fresh in
      let change : SameOutside b (b + n) s.heap.bytes m' =
        λ x h. fresh.outside x (ground arith) ∙ same x (ground arith) in
      record {
        space = record {
          chain =
              Chain-replace change 0 s.bump front (b ∷ []) (pieces b need n) back before after
                cv.chain;
          within = is.within;
          whole = is.whole;
          addressable = is.addressable;
          listed = λ a. omega (
            arith,
            cv.frees a,
            counts a,
            is.listed a,
            free_alone a,
            free_count-replace change 0 s.bump front (b ∷ []) (pieces b need n) back before after
                cv.chain a,
          );
          accounted = omega (
            arith,
            cv.lives,
            is.accounted,
            live_alone,
            live_bytes-replace change 0 s.bump front (b ∷ []) (pieces b need n) back before after
                cv.chain,
          );
          bytes = fresh.bytes (bytes is.bytes);
        };
        fresh = fresh.header;
        slots = fresh.slots;
        member = rw (has-append, has-append, has-pieces) (ground arith);
        used = refl;
        kept = λ a mem live. keep m' change a mem live;
      }
