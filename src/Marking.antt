-- ===== src/Marking.antt =====
-- crates/gc-mod05/src/lib.rs and crates/gc-mod07/src/lib.rs: the loop that marks what the worklist
-- leads to, which the two collectors share word for word.
pub mod Graph
pub mod Reach
use gc_united.Base.{
  ℕ, zero, suc, ◌+◌, true, false, if◌then◌else◌, List, [], ◌∷◌, ◌++◌, length, unsnoc, none, some,
  Exec, ok, panic, ◌>>=◌, add64,
}
use gc_united.Heap
use gc_united.Heap.{Heap, Handle}

-- The children that are not yet marked, in order.
unfoldable pub unmarked : Heap → List Handle → Exec (List Handle)
unmarked hp [] = ok []
unmarked hp (c ∷ cs) = do
  old ← Heap.is_marked hp c
  rest ← unmarked hp cs
  ok (if old then rest else c ∷ rest)

-- The loop over the worklist, which pops from the end and counts what it marks. A round either
-- takes an item off, or marks an object and adds no more items than it has slots.
unfoldable pub mark_loop : ℕ → Heap → ℕ → List Handle → Exec (Heap × ℕ)
unfolding unsnoc unmarked
mark_loop zero hp marks work = elim work [ [] ↦ ok (hp, marks) | _ ∷ _ ↦ panic ]
mark_loop (suc fuel) hp marks work = elim (unsnoc work) [
  | none ↦ ok (hp, marks)
  | some (rest, h) ↦ (do
    old ← Heap.is_marked hp h
    elim old [
      | true ↦ mark_loop fuel hp marks rest
      | false ↦ (do
        hp' ← Heap.set_marked hp h true
        marks' ← add64 marks 1
        cs ← Heap.children hp' h
        more ← unmarked hp' cs
        mark_loop fuel hp' marks' (rest ++ more))
    ])
]

-- The loop from the roots. An object of a well-formed heap is at least as large as its slots are
-- many, so roots and bytes together are fuel enough.
unfoldable pub mark_from : Heap → ℕ → List Handle → Exec (Heap × ℕ)
unfolding mark_loop
mark_from hp marks roots = mark_loop (length roots + hp.len) hp marks roots
