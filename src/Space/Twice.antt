-- ===== src/Space/Twice.antt =====
-- crates/gc-core/src/space.rs: which calls of `free` on a block panic.
use gc_united.Base.{
  ◌≡◌, refl, ◌∙◌, sym, ap, ◌↔◌, inl, inr, true, Bool-cases, ℕ, ◌<◌, [], ◌∷◌, ◌==◌, arith,
  has_of_count-pos, List, has, panic, ◌>>=◌,
}
use gc_united.Heap.{Memory, Handle}
use gc_united.Heap.Chain.{free_at}
use gc_united.Space.{FreeListSpace, free}
use gc_united.Space.Invariant.{IsSpace, free_count}
use gc_united.Space.Alloc.{free_block_of_listed}
use gc_united.Space.Free.{free_twice, free-IsReleased}

-- A free block of the chain is counted.
free_count-pos :
    (m : Memory) (a : ℕ) (bs : List Handle)
    → has a bs ≡ true
    → free_at m a ≡ true
    → 0 < free_count m a bs
free_count-pos m a [] member freed = absurd cc
free_count-pos m a (b ∷ bs) member freed = elim (Bool-cases (a == b)) [
  | inl here ↦
      let same : a ≡ b = ground arith in
      let also : free_at m b ≡ true = ap (free_at m) (sym same) ∙ freed in
      rw (here, also) (omega arith)
  | inr there ↦
      let later : has a bs ≡ true = ground arith in
      let rest = free_count-pos m a bs later freed in omega arith
]

-- `free` of a block of a well-formed space panics if and only if the block is on the free list
-- already, and two calls of `free` for one block, one after the other, always end in a panic.
pub free-panics :
    (s : FreeListSpace) (bs : List Handle) (h : Handle)
    → IsSpace s bs
    → has h bs ≡ true
    → ((free s h ≡ panic) ↔ (has h s.free ≡ true)) × ((free s h >>= (λ s'. free s' h)) ≡ panic)
free-panics s bs h is member = elim (Bool-cases (free_at s.heap.bytes h)) [
  | inl freed ↦
      let stops = free_twice is h member freed in
      let listed : has h s.free ≡ true =
        has_of_count-pos h s.free
          (rw (is.listed h) (free_count-pos s.heap.bytes h bs member freed)) in
      ((λ _. listed, λ _. stops), rw stops refl)
  | inr live ↦
      let (s', runs, released) = free-IsReleased s bs h is member live in
      let again = free_twice released.space h member released.block.freed in
      (
        (
          λ stops. absurd cc,
          λ listed. let freed = (free_block_of_listed is h listed).1 in absurd cc,
        ),
        rw runs again,
      )
]
