-- ===== src/Space/Carve.antt =====
-- crates/gc-core/src/space.rs: a block of the free list becomes an object and what is left over.
use gc_united.Base.{
  ℕ, ◌+◌, ◌-◌, ◌%◌, ◌≤◌, ◌<◌, ◌≡◌, refl, ap, ◌∙◌, ◌⊎◌, inl, inr, arith, ℕ_discrete, true, false,
  List, [], ◌∷◌, ◌++◌, has, count, count-append, ok, ltb, if◌then◌else◌, lt→ltb, le→ltb,
}
use gc_united.Heap.{Memory, Heap, Handle, header_size, align, null_addr, flag_free, write, has_bit}
use gc_united.Heap.Words.{SameOutside, IsBytes}
use gc_united.Heap.Views.{flags_at}
use gc_united.Heap.Blocks.{IsHeader}
use gc_united.Heap.Emplace.{IsFresh, IsHeader-frame, emplace_block-IsHeader}
use gc_united.Heap.Chain.{IsBlock, Chain, free_at}
use gc_united.Space.{split_block}
use gc_united.Space.Invariant.{free_count, live_bytes}

-- What `split_block` leaves of the block of `n` bytes at `b`.
abbrev pub Rest : Memory → List Handle → List Handle → ℕ → ℕ → ℕ → Type 0
Rest m rest free b need n =
    ((need ≡ n) × (free ≡ rest))
    ⊎ ((need < n) × IsHeader m (b + need) (n - need) 0 flag_free × (free ≡ rest ++ (b + need) ∷ []))

pub split_block-Rest :
    (hp : Heap) (rest : List Handle) (b need n : ℕ)
    → need ≤ n
    → b % align ≡ 0
    → need % align ≡ 0
    → n % align ≡ 0
    → b + n ≤ hp.len
    → hp.len < null_addr
    → (m : Memory) × (free : List Handle) × (split_block hp rest b need (n - need)
        ≡ ok (write hp m, free))
      × Rest m rest free b need n
      × SameOutside (b + need) (b + n) hp.bytes m
      × (IsBytes hp.bytes → IsBytes m)
unfolding split_block
split_block-Rest hp rest b need n le ab an nn room addressable = elim (ℕ_discrete need n) [
  | yes e ↦
      (hp.bytes, rest, rw (le→ltb 0 (n - need) (omega arith)), inl (e, refl), λ x h. refl, λ h. h)
  | no ne ↦
      let (m, e, header, same, bytes) =
        emplace_block-IsHeader hp (b + need) (n - need) (omega arith) (omega arith) (omega arith)
          (omega arith) addressable in
      (
        m,
        rest ++ (b + need) ∷ [],
        rw (lt→ltb 0 (n - need) (omega arith), e),
        inr (omega arith, header, refl),
        λ x h. same x (ground arith),
        bytes,
      )
]

-- The blocks that stand where the block was.
pub pieces : ℕ → ℕ → ℕ → List Handle
pieces b need n = if ltb need n then b ∷ (b + need) ∷ [] else b ∷ []

free_of_flags : (m : Memory) (a f : ℕ) → flags_at m a ≡ f → free_at m a ≡ has_bit f flag_free
free_of_flags m a f e = ap (λ g. has_bit g flag_free) e

pub not_free-of-IsHeader :
    {m : Memory} {at n refs : ℕ} → IsHeader m at n refs 0 → free_at m at ≡ false
unfolding has_bit
not_free-of-IsHeader {m} {at} is = free_of_flags m at 0 is.flagged ∙ refl

pub free-of-IsHeader :
    {m : Memory} {at n refs : ℕ} → IsHeader m at n refs flag_free → free_at m at ≡ true
unfolding has_bit
free-of-IsHeader {m} {at} is = free_of_flags m at flag_free is.flagged ∙ refl

pub IsBlock-of-IsHeader :
    {m : Memory} {at n refs f : ℕ}
    → IsHeader m at n refs f
    → header_size ≤ n
    → n % align ≡ 0
    → IsBlock m at
IsBlock-of-IsHeader is a b = record { big = rw is.sized a; whole = rw is.sized b }

-- The blocks behind a carved one: an object of `need` bytes that is live, and a free remainder.
pub record IsCarved (m : Memory) (rest free : List Handle) (b need n : ℕ) : Type 0 where
  pub chain : Chain m b (pieces b need n) (b + n)
  pub lives : live_bytes m (pieces b need n) ≡ need
  pub frees : (a : ℕ) → count a free ≡ count a rest + free_count m a (pieces b need n)

pieces_whole : (b need n : ℕ) → n ≤ need → pieces b need n ≡ b ∷ []
unfolding pieces
pieces_whole b need n h = rw (le→ltb need n h)

pieces_split : (b need n : ℕ) → need < n → pieces b need n ≡ b ∷ (b + need) ∷ []
unfolding pieces
pieces_split b need n h = rw (lt→ltb need n h)

pub carved :
    (m m' : Memory) (rest free : List Handle) (b need n refs : ℕ)
    → need % align ≡ 0
    → n % align ≡ 0
    → header_size ≤ need
    → Rest m rest free b need n
    → IsFresh m m' b need refs
    → IsCarved m' rest free b need n
carved m m' rest free b need n refs an nn big (inl (e, same)) fresh =
    let live = not_free-of-IsHeader fresh.header in
    let block = IsBlock-of-IsHeader fresh.header big an in
    let sized = fresh.header.sized in
    let all = pieces_whole b need n (omega arith) in
    record {
      chain = rw all (refl, block, omega arith);
      lives = rw all (rw (live, sized) (omega arith));
      frees = λ a. rw all (rw (same, live) (ground arith));
    }
carved m m' rest free b need n refs an nn big (inr (lt, header, same)) fresh =
    let live = not_free-of-IsHeader fresh.header in
    let block = IsBlock-of-IsHeader fresh.header big an in
    let sized = fresh.header.sized in
    let header' =
      IsHeader-frame fresh.outside (b + need) (n - need) 0 flag_free (inr (omega arith)) header in
    let free' = free-of-IsHeader header' in
    let block' = IsBlock-of-IsHeader header' (omega arith) (omega arith) in
    let sized' = header'.sized in
    let all = pieces_split b need n lt in
    record {
      chain = rw all (rw sized (refl, block, (refl, block', omega arith)));
      lives = rw all (rw (live, free', sized) (omega arith));
      frees = λ a.
          rw all (rw (same, live, free') (ground (arith, count-append a rest ((b + need) ∷ []))));
    }

pub has-pieces : (b need n : ℕ) → has b (pieces b need n) ≡ true
unfolding pieces
has-pieces b need n = ground arith
