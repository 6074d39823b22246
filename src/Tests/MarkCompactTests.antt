-- ===== src/Tests/MarkCompactTests.antt =====
-- The mark phase and the update of crates/gc-mod05/src/lib.rs at a heap of three objects.
use gc_united.Base.{
  ℕ, ◌+◌, ◌*◌, ◌<◌, ◌≤◌, ◌≡◌, ◌≢◌, ◌↔◌, ◌∙◌, ◌⊎◌, inl, inr, refl, true, false, arith, ok, [], ◌∷◌,
  has, count, List, subst, sym, ap,
}
use gc_united.Heap
use gc_united.Heap.{Memory, Heap, Handle, header_size, write, put8, put16, put32}
use gc_united.Heap.Words.{SameOutside, IsBytes, IsBytes-put8, IsBytes-put16, IsBytes-put32}
use gc_united.Heap.Views.{size_at, nrefs_at, fwd_at, slot_at}
use gc_united.Heap.Chain.{Chain}
use gc_united.Roots
use gc_united.Stats.{fresh}
use gc_united.Marking.Graph.{IsGraph, refs_at, mark_all, marked_at}
use gc_united.Marking.Reach.{Reach}
use gc_united.MarkCompact.{MarkCompact, mark_from_roots, update_object}
use gc_united.MarkCompact.Mark.{marked, mark_from_roots-Reach}
use gc_united.MarkCompact.Update.{moved_to, update_object-cases}

-- Objects at 0, 32 and 64; the first has one slot, which names the second, and the second one has
-- the flags `f`. Each has the forwarding address 0.
abbrev cells : ℕ → Memory
cells f = put32 (put32 (put8 (put32 (put32 (put16 (λ _. 0) 4 1) 0 32) 16 32) 6 f) 32 32) 64 32

abbrev blocks : List Handle
blocks = 0 ∷ 32 ∷ 64 ∷ []

abbrev arena : ℕ → Heap
arena f = record { bytes = cells f; len = 96 }

cells-IsBytes : (f : ℕ) → IsBytes (cells f)
cells-IsBytes f = IsBytes-put32 _ _ _ (
    IsBytes-put32 _ _ _ (
      IsBytes-put8 _ _ _ (
        IsBytes-put32 _ _ _ (IsBytes-put32 _ _ _ (IsBytes-put16 (λ _. 0) 4 1 (λ x. omega arith))))))

cells-Chain : (f : ℕ) → Chain (cells f) 0 blocks 96
unfolding Heap.word32 put32 put16 put8
cells-Chain f = (
  refl,
  record { big = omega arith; whole = refl },
  (
    refl,
    record { big = omega arith; whole = refl },
    (refl, record { big = omega arith; whole = refl }, refl),
  ),
)

three : (h : Handle) → has h blocks ≡ true → (h ≡ 0) ⊎ ((h ≡ 32) ⊎ (h ≡ 64))
three h p = ground arith

refs_first : (f : ℕ) → refs_at (cells f) 0 ≡ 32 ∷ []
unfolding Heap.word32 put32 put16 put8 Heap.word16
refs_first f = refl

refs_second : (f : ℕ) → refs_at (cells f) 32 ≡ []
unfolding Heap.word32 put32 put16 put8 Heap.word16
refs_second f = refl

refs_third : (f : ℕ) → refs_at (cells f) 64 ≡ []
unfolding Heap.word32 put32 put16 put8 Heap.word16
refs_third f = refl

room_each :
    (f : ℕ) (h : Handle)
    → has h blocks ≡ true
    → header_size + 4 * nrefs_at (cells f) h ≤ size_at (cells f) h
unfolding Heap.word32 put32 put16 put8 Heap.word16
room_each f h p = elim (three h p) [
  | inl e ↦
      subst (λ h. header_size + 4 * nrefs_at (cells f) h ≤ size_at (cells f) h) (sym e)
        (omega arith)
  | inr (inl e) ↦
      subst (λ h. header_size + 4 * nrefs_at (cells f) h ≤ size_at (cells f) h) (sym e)
        (omega arith)
  | inr (inr e) ↦
      subst (λ h. header_size + 4 * nrefs_at (cells f) h ≤ size_at (cells f) h) (sym e)
        (omega arith)
]

closed_each :
    (f : ℕ) (h c : Handle)
    → has h blocks ≡ true
    → has c (refs_at (cells f) h) ≡ true
    → has c blocks ≡ true
closed_each f h c p q = elim (three h p) [
  | inl e ↦
      let q' : has c (32 ∷ []) ≡ true =
        subst (λ l. has c l ≡ true) (ap (refs_at (cells f)) e ∙ refs_first f) q in
      ground arith
  | inr (inl e) ↦
      let q' : has c [] ≡ true =
        subst (λ l. has c l ≡ true) (ap (refs_at (cells f)) e ∙ refs_second f) q in
      cc
  | inr (inr e) ↦
      let q' : has c [] ≡ true =
        subst (λ l. has c l ≡ true) (ap (refs_at (cells f)) e ∙ refs_third f) q in
      cc
]

arena-IsGraph : (f : ℕ) → IsGraph (arena f) blocks 96
arena-IsGraph f = record {
  chain = cells-Chain f;
  within = omega arith;
  bytes = cells-IsBytes f;
  room = room_each f;
  closed = closed_each f;
}

clear_each : (h : Handle) → has h blocks ≡ true → marked_at (cells 0) h ≡ false
unfolding put32 put16 put8 Heap.has_bit
clear_each h p = elim (three h p) [
  | inl e ↦ subst (λ h. marked_at (cells 0) h ≡ false) (sym e) refl
  | inr (inl e) ↦ subst (λ h. marked_at (cells 0) h ≡ false) (sym e) refl
  | inr (inr e) ↦ subst (λ h. marked_at (cells 0) h ≡ false) (sym e) refl
]

-- The first object is a root.
abbrev rooted : MarkCompact
rooted = record {
  heap = arena 0;
  roots = record { stack = 0 ∷ []; globals = [] };
  stats = fresh;
  top = 96;
  threshold = 48;
  thrashing = 0;
}

rooted_each : (h : Handle) → has h (Roots.handles rooted.roots) ≡ true → has h blocks ≡ true
unfolding Roots.handles Roots.not_null
rooted_each h p = ground arith

mark_from_roots-Reach_example :
    (hs : List Handle) × (mark_from_roots rooted ≡ ok (marked rooted hs))
    × ((a : Handle) → (has a hs ≡ true) ↔ Reach (cells 0) (Roots.handles rooted.roots) a)
    × ((a : Handle) → count a hs ≤ 1)
    × ((a : Handle) → has a blocks ≡ true → marked_at (mark_all (cells 0) hs) a ≡ has a hs)
mark_from_roots-Reach_example =
    mark_from_roots-Reach rooted blocks (arena-IsGraph 0) clear_each rooted_each (omega arith)

-- The first object, which is marked and stays at 0.
update_object-cases_example :
    ((marked_at (cells 1) 0 ≡ false) ⊎ (fwd_at (cells 1) 0 ≡ 0)
      → update_object (arena 1) 0 ≡ ok (arena 1))
    × ((marked_at (cells 1) 0 ≡ true)
        → fwd_at (cells 1) 0 ≢ 0
        → (m' : Memory) × (update_object (arena 1) 0 ≡ ok (write (arena 1) m'))
          × SameOutside (0 + header_size) (0 + header_size + 4 * nrefs_at (cells 1) 0) (cells 1) m'
          × ((j : ℕ)
              → j < nrefs_at (cells 1) 0
              → slot_at m' 0 j ≡ moved_to (cells 1) (slot_at (cells 1) 0 j)))
update_object-cases_example = update_object-cases (arena-IsGraph 1) 0 refl
