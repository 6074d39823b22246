-- ===== src/Space/Apart.antt =====
-- Two blocks of a space do not meet.
use gc_united.Base.{
  ℕ, ◌+◌, ◌≤◌, ◌≡◌, ◌≢◌, ◌⊎◌, inl, inr, arith, true, List, [], ◌∷◌, has, ℕ_discrete,
}
use gc_united.Heap.{Memory, Handle, header_size}
use gc_united.Space.{FreeListSpace}
use gc_united.Space.Invariant.{IsSpace}
use gc_united.Heap.Views.{size_at}
use gc_united.Heap.Chain.{Chain, Chain-has}

pub Chain-apart :
    (m : Memory) (bs : List Handle) (lo hi a b : ℕ)
    → Chain m lo bs hi
    → has a bs ≡ true
    → has b bs ≡ true
    → b ≢ a
    → (b + size_at m b ≤ a) ⊎ (a + size_at m a ≤ b)
Chain-apart m [] lo hi a b c p q ne = cc
Chain-apart m (x ∷ bs) lo hi a b (e, is, c) p q ne = elim (ℕ_discrete a x) [
  | yes ax ↦
      let (below, _, _) = Chain-has m bs (x + size_at m x) hi b c (ground arith) in
      inr (rw ax below)
  | no not_a ↦ elim (ℕ_discrete b x) [
    | yes bx ↦
        let (below, _, _) = Chain-has m bs (x + size_at m x) hi a c (ground arith) in
        inl (rw bx below)
    | no not_b ↦ Chain-apart m bs (x + size_at m x) hi a b c (ground arith) (ground arith) ne
  ]
]

-- The header of one block lies outside another.
pub header-apart :
    {s : FreeListSpace} {bs : List Handle} (is : IsSpace s bs) (h c : Handle)
    → has h bs ≡ true
    → has c bs ≡ true
    → c ≢ h
    → (c + header_size ≤ h) ⊎ (h + size_at s.heap.bytes h ≤ c)
header-apart {s} {bs} is h c p q ne =
    let (_, _, block) = Chain-has s.heap.bytes bs 0 s.bump c is.chain q in
    let big = block.big in ground (arith, Chain-apart s.heap.bytes bs 0 s.bump h c is.chain p q ne)
