-- ===== src/Space/Merge.antt =====
-- crates/gc-core/src/space.rs: two free blocks side by side become one.
use gc_united.Base.{
  ℕ, ◌≤◌, ==-refl, ◌+◌, ◌<◌, ◌≡◌, refl, ap, ◌∙◌, inl, inr, arith, true, false, ◌==◌, List, [], ◌∷◌,
  ◌++◌, has, has-append, count, one_if, ℕ_discrete, Bool-cases,
}
use gc_united.Heap
use gc_united.Heap.{
  Memory, Heap, Handle, header_size, align, null_addr, write, flag_free, off_flags, off_size,
}
use gc_united.Heap.Words.{SameOutside, SameOn, IsBytes, frame32}
use gc_united.Heap.Views.{size_at}
use gc_united.Heap.Blocks.{IsHeader}
use gc_united.Heap.Chain.{Chain, free_at, Chain-has, Chain-split}
use gc_united.Space.{FreeListSpace}
use gc_united.Space.Invariant.{
  IsSpace, free_count, live_bytes, Chain-replace, free_count-replace, live_bytes-replace,
}
use gc_united.Space.Carve.{free-of-IsHeader, IsBlock-of-IsHeader}

-- Every block of `bs` that is live in `m` is a block of `bs'`, with all its bytes in `m'`.
abbrev pub Kept : Memory → List Handle → Memory → List Handle → Type 0
Kept m bs m' bs' =
    (b : Handle)
    → has b bs ≡ true
    → free_at m b ≡ false
    → (has b bs' ≡ true)
      × (free_at m' b ≡ false)
      × (size_at m' b ≡ size_at m b)
      × SameOn b (b + size_at m b) m m'

-- Blocks in falling order, with something between any two of them.
abbrev pub Spaced : Memory → List Handle → Type 0
Spaced m [] = Unit {0}
Spaced m (x ∷ []) = Unit {0}
Spaced m (x ∷ y ∷ ys) = (y + size_at m y < x) × Spaced m (y ∷ ys)

-- A change at or above the first of them leaves the others alone.
pub Spaced-frame :
    {m m' : Memory} {p q : ℕ} (s : SameOutside p q m m') (x : Handle) (xs : List Handle)
    → ((y : Handle) → has y xs ≡ true → y + header_size ≤ p)
    → Spaced m (x ∷ xs)
    → Spaced m' (x ∷ xs)
Spaced-frame s x [] below sp = tt
Spaced-frame {m} {m'} s x (y ∷ ys) below (gap, sp) =
    let early = below y (rw ==-refl refl) in
    let sized : size_at m' y ≡ size_at m y = frame32 s (y + off_size) (inl (omega arith)) in
    (omega (arith, sized), Spaced-frame s y ys (λ z mem. below z (ground arith)) sp)

-- All of them lie below the first.
pub Spaced-below :
    (m : Memory) (x : Handle) (xs : List Handle)
    → Spaced m (x ∷ xs)
    → (y : Handle) → has y xs ≡ true
    → y + size_at m y < x
Spaced-below m x [] sp y mem = cc
Spaced-below m x (z ∷ zs) (gap, sp) y mem = elim (ℕ_discrete y z) [
  | yes same ↦ rw same gap
  | no other ↦ let later = Spaced-below m z zs sp y (ground arith) in omega arith
]

-- The blocks `prev` and `b`, both free, stand side by side.
module _ (s : FreeListSpace) (front rest : List Handle) (prev b : Handle)
    (is : IsSpace s (front ++ prev ∷ b ∷ rest)) (side : prev + size_at s.heap.bytes prev ≡ b)
    (prev_free : free_at s.heap.bytes prev ≡ true) (b_free : free_at s.heap.bytes b ≡ true)
    (m' : Memory)
    (header : IsHeader m' prev (size_at s.heap.bytes prev + size_at s.heap.bytes b) 0 flag_free)
    (change : SameOutside prev (prev + header_size) s.heap.bytes m') (bytes : IsBytes m')
    (free : List Handle) (counts : (a : ℕ) → count a free + one_if (a == b) ≡ count a s.free) where
  pub joined-IsSpace :
      IsSpace (record s { heap = write s.heap m'; free = free }) (front ++ prev ∷ rest)
  joined-IsSpace =
      let m = s.heap.bytes in
      let n = size_at m prev in
      let k = size_at m b in
      let (before, block, (e, block', after)) =
        Chain-split m front prev (b ∷ rest) 0 s.bump is.chain in
      let big = block.big in
      let big' = block'.big in
      let wide : SameOutside prev (b + k) m m' = λ x o. change x (ground arith) in
      let free' = free-of-IsHeader header in
      let sized = header.sized in
      let block2 =
        IsBlock-of-IsHeader header (omega arith) (omega (arith, block.whole, block'.whole)) in
      let news : Chain m' prev (prev ∷ []) (b + k) = (refl, block2, omega (arith, sized)) in
      let apart : prev < b = omega arith in
      record {
        chain =
            Chain-replace wide 0 s.bump front (prev ∷ b ∷ []) (prev ∷ []) rest before after news;
        within = is.within;
        whole = is.whole;
        addressable = is.addressable;
        listed = λ a.
            let two : free_count m a (prev ∷ b ∷ []) ≡ one_if (a == prev) + one_if (a == b) =
              rw (prev_free, b_free) (ground arith) in
            let one : free_count m' a (prev ∷ []) ≡ one_if (a == prev) = rw free' (ground arith) in
            omega (
              arith,
              is.listed a,
              counts a,
              two,
              one,
              free_count-replace wide 0 s.bump front (prev ∷ b ∷ []) (prev ∷ []) rest before after
                  news a,
            );
        accounted =
            let two : live_bytes m (prev ∷ b ∷ []) ≡ 0 = rw (prev_free, b_free) (omega arith) in
            let one : live_bytes m' (prev ∷ []) ≡ 0 = rw free' (omega arith) in
            omega (
              arith,
              is.accounted,
              two,
              one,
              live_bytes-replace wide 0 s.bump front (prev ∷ b ∷ []) (prev ∷ []) rest before after
                  news,
            );
        bytes = bytes;
      }

  pub joined-Kept : Kept s.heap.bytes (front ++ prev ∷ b ∷ rest) m' (front ++ prev ∷ rest)
  joined-Kept c mem live =
      let m = s.heap.bytes in
      let n = size_at m prev in
      let k = size_at m b in
      let (before, block, (e, block', after)) =
        Chain-split m front prev (b ∷ rest) 0 s.bump is.chain in
      let big = block.big in
      let split = has-append c front (prev ∷ b ∷ rest) in
      let joined = has-append c front (prev ∷ rest) in
      let not_prev : (c == prev) ≡ false = elim (ℕ_discrete c prev) [
        | yes p ↦ cc
        | no ne ↦ ground arith
      ] in
      let not_b : (c == b) ≡ false = elim (ℕ_discrete c b) [ yes p ↦ cc | no ne ↦ ground arith ] in
      elim (Bool-cases (has c front)) [
        | inl early ↦
            let (_, hi, is_block) = Chain-has m front 0 prev c before early in
            let big_c = is_block.big in
            (
              rw (joined, early),
              ap (λ f. Heap.has_bit f flag_free) (change (c + off_flags) (inl (omega arith)))
                  ∙ live,
              frame32 change (c + off_size) (inl (omega arith)),
              λ x p q. change x (inl (omega arith)),
            )
        | inr late ↦
            let later : has c rest ≡ true = ground arith in
            let (lo, hi, is_block) = Chain-has m rest (b + k) s.bump c after later in
            (
              rw (joined, late, not_prev, later),
              ap (λ f. Heap.has_bit f flag_free) (change (c + off_flags) (inr (omega arith)))
                  ∙ live,
              frame32 change (c + off_size) (inr (omega arith)),
              λ x p q. change x (inr (omega arith)),
            )
      ]

pub Kept-refl : (m : Memory) (bs : List Handle) → Kept m bs m bs
Kept-refl m bs b mem live = (mem, live, refl, λ x p q. refl)

pub Kept-trans :
    (m m' m'' : Memory) (bs bs' bs'' : List Handle)
    → Kept m bs m' bs'
    → Kept m' bs' m'' bs''
    → Kept m bs m'' bs''
Kept-trans m m' m'' bs bs' bs'' first second b mem live =
    let (mem', live', sized', same') = first b mem live in
    let (mem'', live'', sized'', same'') = second b mem' live' in
    (mem'', live'', sized'' ∙ sized', λ x p q. same'' x p (omega (arith, sized')) ∙ same' x p q)
