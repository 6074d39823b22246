-- ===== src/MarkCompact/Update.antt =====
-- crates/gc-mod05/src/lib.rs: what `update_references` does with one object.
use gc_united.Base.{
  ℕ, zero, suc, ◌+◌, ◌*◌, ◌≤◌, ◌<◌, ◌≡◌, ◌≢◌, refl, ◌∙◌, ap, ◌⊎◌, inl, inr, arith, true, false,
  if◌then◌else◌, ◌==◌, Bool-cases, ℕ_discrete, List, has, ok,
}
use gc_united.Heap
use gc_united.Heap.{
  Memory, Heap, Handle, header_size, off_fwd, off_flags, off_size, off_nrefs, flag_mark, is_null,
  write, put32, has_bit,
}
use gc_united.Heap.Words.{SameOutside, frame16, frame32, word32-put32, word32-lt, put32-SameOutside}
use gc_united.Heap.Views.{
  nrefs_at, fwd_at, slot_at, nrefs-ok, flag-ok, forward-ok, field-ok, set_field-ok,
}
use gc_united.Heap.Chain.{Chain-has}
use gc_united.Space.Apart.{Chain-apart}
use gc_united.Marking.Graph.{IsGraph, marked_at, inside_graph, has-refs_at}
use gc_united.MarkCompact.{update_slot, update_slots, update_object}

-- Where a reference points once it is updated.
abbrev pub moved_to : Memory → Handle → Handle
moved_to m c = if is_null c then c else fwd_at m c

module _ {hp : Heap} {bs : List Handle} {top : ℕ} (g : IsGraph hp bs top) (h : Handle)
    (member : has h bs ≡ true) where
  abbrev k : ℕ
  k = nrefs_at hp.bytes h

  abbrev base : ℕ
  base = h + header_size

  -- No header meets the slots.
  header_away : (c : Handle) → has c bs ≡ true → (c + header_size ≤ base) ⊎ (base + 4 * k ≤ c)
  header_away c c_in = elim (ℕ_discrete c h) [
    | yes same ↦ inl (omega arith)
    | no other ↦
        let (_, _, block) = Chain-has hp.bytes bs 0 top c g.chain c_in in
        let big = block.big in
        let room = g.room h member in
        ground (arith, Chain-apart hp.bytes bs 0 top h c g.chain member c_in other)
  ]

  -- `m` is the memory once the slots before `i` are updated.
  module _ (i : ℕ) (m : Memory) (change : SameOutside base (base + 4 * i) hp.bytes m)
      (small : i ≤ k) where
    nrefs_kept : nrefs_at m h ≡ k
    nrefs_kept = frame16 change (h + off_nrefs) (inl (omega arith))

    slot_kept : (j : ℕ) → i ≤ j → slot_at m h j ≡ slot_at hp.bytes h j
    slot_kept j lo = frame32 change (base + 4 * j) (inr (omega arith))

    forward_kept :
        (c : Handle) → has c bs ≡ true → Heap.forward (write hp m) c ≡ ok (fwd_at hp.bytes c)
    forward_kept c c_in =
        forward-ok (write hp m) c (omega (arith, inside_graph g c c_in))
        ∙ ap ok (frame32 change (c + off_fwd) (ground (arith, header_away c c_in)))

    -- One round.
    update_slot-ok :
        i < k
        → (m' : Memory) × (update_slot (write hp m) h i ≡ ok (write hp m'))
          × SameOutside (base + 4 * i) (base + 4 * i + 4) m m'
          × (slot_at m' h i ≡ moved_to hp.bytes (slot_at hp.bytes h i))
    unfolding update_slot
    update_slot-ok small' =
        let inside = inside_graph g h member in
        let old = slot_at hp.bytes h i in
        let named : i < nrefs_at m h = omega (arith, nrefs_kept) in
        let here : Heap.field (write hp m) h i ≡ ok old =
          field-ok (write hp m) h (omega arith) i named (omega arith)
          ∙ ap ok (slot_kept i (omega arith)) in
        elim (Bool-cases (is_null old)) [
          | inl nothing ↦
              (m, rw (here, nothing) refl, (λ x o. refl), rw nothing (slot_kept i (omega arith)))
          | inr some_object ↦
              let c_in = g.closed h old member (has-refs_at hp.bytes h i small' some_object) in
              let to = fwd_at hp.bytes old in
              let m' = put32 m (base + 4 * i) to in
              let sets : Heap.set_field (write hp m) h i to ≡ ok (write hp m') =
                set_field-ok (write hp m) h (omega arith) i named (omega arith) to in
              (
                m',
                rw (here, some_object, forward_kept old c_in) sets,
                put32-SameOutside m (base + 4 * i) to _ _ (omega arith) (omega arith),
                rw some_object (
                    word32-put32 m (base + 4 * i) to
                    ∙ omega (arith, word32-lt hp.bytes (old + off_fwd) g.bytes)),
              )
        ]

  -- The rest of the loop, from slot `i` on.
  update_slots-ok :
      (n i : ℕ) (m : Memory)
      → i + n ≡ k
      → SameOutside base (base + 4 * i) hp.bytes m
      → (m' : Memory) × (update_slots (write hp m) h i n ≡ ok (write hp m'))
        × SameOutside base (base + 4 * k) hp.bytes m'
        × ((j : ℕ) → j < i → slot_at m' h j ≡ slot_at m h j)
        × ((j : ℕ) → i ≤ j → j < k → slot_at m' h j ≡ moved_to hp.bytes (slot_at hp.bytes h j))
  unfolding update_slots
  update_slots-ok zero i m e change =
      (m, refl, (λ x o. change x (ground arith)), (λ j p. refl), λ j p q. absurd (omega arith))
  update_slots-ok (suc n) i m e change =
      let (m1, runs, near, now) = update_slot-ok i m change (omega arith) (omega arith) in
      let change1 : SameOutside base (base + 4 * suc i) hp.bytes m1 =
        λ x o. near x (ground arith) ∙ change x (ground arith) in
      let (m', rest, all, before, after) = update_slots-ok n (suc i) m1 (omega arith) change1 in
      (
        m',
        rw runs rest,
        all,
        λ j p. before j (omega arith) ∙ frame32 near (base + 4 * j) (inl (omega arith)),
        λ j p q. elim (ℕ_discrete j i) [
          | yes same ↦ rw same (before i (omega arith) ∙ now)
          | no other ↦ after j (omega arith) q
        ],
      )

  -- The heap is a graph of blocks. Over a block that is not marked, or whose forwarding address is
  -- its own, the round of `update_references` changes nothing, so that its references stay at the
  -- old addresses of what they name. Over any other block it replaces each reference that is not
  -- null by the forwarding address of what it names, and changes nothing but the slots.
  pub update_object-cases :
      ((marked_at hp.bytes h ≡ false) ⊎ (fwd_at hp.bytes h ≡ h) → update_object hp h ≡ ok hp)
      × ((marked_at hp.bytes h ≡ true)
          → fwd_at hp.bytes h ≢ h
          → (m' : Memory) × (update_object hp h ≡ ok (write hp m'))
            × SameOutside base (base + 4 * k) hp.bytes m'
            × ((j : ℕ) → j < k → slot_at m' h j ≡ moved_to hp.bytes (slot_at hp.bytes h j)))
  unfolding update_object Heap.is_marked
  update_object-cases =
      let inside = inside_graph g h member in
      let reads = flag-ok hp h (omega arith) flag_mark in
      let target = forward-ok hp h (omega arith) in
      (
        λ skipped. elim skipped [
          | inl unmarked ↦ rw (reads, unmarked) refl
          | inr stays ↦ elim (Bool-cases (marked_at hp.bytes h)) [
            | inl marked ↦
                let same : (fwd_at hp.bytes h == h) ≡ true = ground arith in
                rw (reads, marked, target, same) refl
            | inr unmarked ↦ rw (reads, unmarked) refl
          ]
        ],
        λ marked moves.
            let (m', runs, all, before, after) =
              update_slots-ok k 0 hp.bytes (omega arith) (λ x o. refl) in
            let other : (fwd_at hp.bytes h == h) ≡ false = ground arith in
            (
              m',
              rw (reads, marked, target, other, nrefs-ok hp h (omega arith)) runs,
              all,
              λ j p. after j (omega arith) p,
            ),
      )
