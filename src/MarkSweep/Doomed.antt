-- ===== src/MarkSweep/Doomed.antt =====
-- crates/gc-mod04/src/lib.rs: the walk of `sweep` finds the objects that are not marked.
use gc_united.Base.{
  ℕ, zero, suc, ◌+◌, ◌≤◌, ◌<◌, ◌≡◌, refl, ap, arith, Bool, not, ◌&&◌, if◌then◌else◌, lt→ltb, le→ltb,
  List, [], ◌∷◌, ok, u32_values, add32-ok, Bool-cases, inl, inr,
}
use gc_united.Heap
use gc_united.Heap.{
  Memory, Heap, Handle, header_size, flag_free, flag_mark, has_bit, off_flags, off_size,
}
use gc_united.Heap.Words.{SameOutside, frame32}
use gc_united.Heap.Views.{size_at, flags_at, size-ok, flag-ok}
use gc_united.Heap.Chain.{Chain, free_at, Chain-le}
use gc_united.Space
use gc_united.Space.{FreeListSpace}
use gc_united.MarkSweep.{doomed}

abbrev pub marked_at : Memory → Handle → Bool
marked_at m a = has_bit (flags_at m a) flag_mark

-- An object that is not marked.
abbrev pub dead_at : Memory → Handle → Bool
dead_at m a = not (free_at m a) && not (marked_at m a)

abbrev pub dead : Memory → List Handle → List Handle
dead m [] = []
dead m (b ∷ bs) = if dead_at m b then b ∷ dead m bs else dead m bs

-- The walk over a chain of blocks yields those that are dead, in address order.
pub doomed-dead :
    (fuel : ℕ) (s : FreeListSpace) (bs : List Handle) (lo : ℕ)
    → Chain s.heap.bytes lo bs s.bump
    → s.bump ≤ s.heap.len
    → s.heap.len < u32_values
    → s.bump < fuel + lo
    → doomed fuel s lo ≡ ok (dead s.heap.bytes bs)
unfolding doomed Space.is_free Heap.is_marked
doomed-dead zero s bs lo c within small enough =
    absurd (omega (arith, Chain-le s.heap.bytes bs lo s.bump c))
doomed-dead (suc fuel) s [] lo c within small enough =
    rw (doomed, le→ltb lo s.bump (omega (arith, c)))
doomed-dead (suc fuel) s (b ∷ bs) lo (e, block, c) within small enough =
    let m = s.heap.bytes in
    let n = size_at m b in
    let big = block.big in
    let end = Chain-le m bs (b + n) s.bump c in
    let room : b + header_size ≤ s.heap.len = omega arith in
    let later = doomed-dead fuel s bs (b + n) c within small (omega arith) in
    rw (← e) (
      rw
        (
          doomed,
          lt→ltb b s.bump (omega arith),
          size-ok s.heap b room,
          add32-ok b n (omega arith),
          flag-ok s.heap b room flag_free,
        )
        (elim (Bool-cases (free_at m b)) [
          | inl free ↦ rw (free, later)
          | inr live ↦ elim (Bool-cases (marked_at m b)) [
            | inl marked ↦ rw (live, flag-ok s.heap b room flag_mark, marked, later)
            | inr unmarked ↦ rw (live, flag-ok s.heap b room flag_mark, unmarked, later)
          ]
        ]))

-- The bytes of the dead objects.
abbrev pub dead_bytes : Memory → List Handle → ℕ
dead_bytes m [] = 0
dead_bytes m (b ∷ bs) = (if dead_at m b then size_at m b else 0) + dead_bytes m bs

-- Blocks behind a change are as dead as before.
module _ {m m' : Memory} {p q : ℕ} (s : SameOutside p q m m') where
  pub dead_at-frame : (b : Handle) → q ≤ b → dead_at m' b ≡ dead_at m b
  dead_at-frame b le =
      ap (λ f. not (has_bit f flag_free) && not (has_bit f flag_mark))
        (s (b + off_flags) (inr (omega arith)))

  pub dead-frame :
      (bs : List Handle) (lo hi : ℕ)
      → q ≤ lo
      → Chain m lo bs hi
      → (dead m' bs ≡ dead m bs) × (dead_bytes m' bs ≡ dead_bytes m bs)
  dead-frame [] lo hi le c = (refl, refl)
  dead-frame (b ∷ bs) lo hi le (e, block, c) =
      let (list, bytes) = dead-frame bs (b + size_at m b) hi (omega arith) c in
      let same = dead_at-frame b (omega arith) in
      let sized : size_at m' b ≡ size_at m b = frame32 s (b + off_size) (inr (omega arith)) in
      (rw (same, list) refl, rw (same, sized, bytes) refl)
