-- ===== src/Space/Poke.antt =====
-- A write inside a block, behind its size and its flags, keeps a space well formed.
use gc_united.Base.{
  ℕ, ◌+◌, ◌≤◌, ◌≡◌, refl, sym, ap, inl, arith, true, List, [], ◌∷◌, ◌++◌, has, split_at, subst,
}
use gc_united.Heap.{Memory, Handle, write, off_size, off_flags, has_bit, flag_free}
use gc_united.Heap.Words.{SameOutside, IsBytes, frame32, SameOutside-wider}
use gc_united.Heap.Views.{size_at}
use gc_united.Heap.Chain.{Chain, Chain-split, free_at}
use gc_united.Space.{FreeListSpace}
use gc_united.Space.Invariant.{
  IsSpace, free_count, live_bytes, Chain-replace, free_count-replace, live_bytes-replace,
}

-- `s` over another memory.
abbrev pub over : FreeListSpace → Memory → FreeListSpace
over s m = record s { heap = write s.heap m }

module _ (s : FreeListSpace) (front : List Handle) (h : Handle) (back : List Handle)
    (is : IsSpace s (front ++ h ∷ back)) {p q : ℕ} {m' : Memory}
    (change : SameOutside p q s.heap.bytes m') (bytes : IsBytes m') where
  IsSpace-over_middle :
      h + off_flags ≤ p
      → q ≤ h + size_at s.heap.bytes h
      → free_at m' h ≡ free_at s.heap.bytes h
      → IsSpace (over s m') (front ++ h ∷ back)
  IsSpace-over_middle lo hi freed =
      let m = s.heap.bytes in
      let n = size_at m h in
      let (before, block, after) = Chain-split m front h back 0 s.bump is.chain in
      let big = block.big in
      let sized : size_at m' h ≡ n = frame32 change (h + off_size) (inl (omega arith)) in
      let inner : SameOutside h (h + n) m m' =
        SameOutside-wider change h (h + n) (omega arith) (omega arith) in
      let news : Chain m' h (h ∷ []) (h + n) =
        (refl, record { big = rw sized block.big; whole = rw sized block.whole }, omega arith) in
      let lives : live_bytes m' (h ∷ []) ≡ live_bytes m (h ∷ []) = rw (freed, sized) in
      let frees : (a : ℕ) → free_count m' a (h ∷ []) ≡ free_count m a (h ∷ []) = λ a. rw freed in
      record {
        chain = Chain-replace inner 0 s.bump front (h ∷ []) (h ∷ []) back before after news;
        within = is.within;
        whole = is.whole;
        addressable = is.addressable;
        listed = λ a. omega (
          arith,
          is.listed a,
          frees a,
          free_count-replace inner 0 s.bump front (h ∷ []) (h ∷ []) back before after news a,
        );
        accounted = omega (
          arith,
          is.accounted,
          lives,
          live_bytes-replace inner 0 s.bump front (h ∷ []) (h ∷ []) back before after news,
        );
        bytes = bytes;
      }

-- Flags may change as long as the block stays free or live.
pub IsSpace-over_flags :
    {s : FreeListSpace} {bs : List Handle} (h : Handle) {p q : ℕ} {m' : Memory}
    → IsSpace s bs
    → has h bs ≡ true
    → SameOutside p q s.heap.bytes m'
    → IsBytes m'
    → h + off_flags ≤ p
    → q ≤ h + size_at s.heap.bytes h
    → free_at m' h ≡ free_at s.heap.bytes h
    → IsSpace (over s m') bs
IsSpace-over_flags {s} {bs} h {m'} is member change bytes lo hi freed =
    let (front, back, whole) = split_at h bs member in
    subst (IsSpace (over s m')) (sym whole)
      (IsSpace-over_middle s front h back (subst (IsSpace s) whole is) change bytes lo hi freed)

pub IsSpace-over :
    {s : FreeListSpace} {bs : List Handle} (h : Handle) {p q : ℕ} {m' : Memory}
    → IsSpace s bs
    → has h bs ≡ true
    → SameOutside p q s.heap.bytes m'
    → IsBytes m'
    → h + 7 ≤ p
    → q ≤ h + size_at s.heap.bytes h
    → IsSpace (over s m') bs
IsSpace-over h is member change bytes lo hi =
    IsSpace-over_flags h is member change bytes (omega arith) hi
      (ap (λ f. has_bit f flag_free) (change (h + off_flags) (inl (omega arith))))
