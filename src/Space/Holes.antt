-- ===== src/Space/Holes.antt =====
-- crates/gc-core/src/space.rs: the sorted free list is the list of free blocks that a walk meets.
use mathlib.Core.List
use mathlib.Core.List.{reverse}
use gc_united.Base.{
  ℕ, ◌+◌, ◌≤◌, ◌<◌, ◌≡◌, refl, ap, sym, ◌∙◌, inl, inr, arith, Bool, true, ◌==◌, if◌then◌else◌, leb,
  leb→le, leb→lt, List, [], ◌∷◌, length, count, count-append, one_if, sort, insert_sorted,
  Bool-cases,
}
use gc_united.Heap.{Memory, Handle, off_flags}
use gc_united.Heap.Words.{SameOutside}
use gc_united.Heap.Views.{size_at}
use gc_united.Heap.Chain.{Chain, free_at}
use gc_united.Space.{FreeListSpace, sort_free}
use gc_united.Space.Invariant.{IsSpace, free_count}

-- The free blocks among `bs`.
abbrev pub holes : Memory → List Handle → List Handle
holes m [] = []
holes m (b ∷ bs) = if free_at m b then b ∷ holes m bs else holes m bs

-- Every item is at least the one ahead of it, and the first is at least `lo`.
abbrev pub Rising : ℕ → List ℕ → Type 0
Rising lo [] = lo ≤ lo
Rising lo (x ∷ xs) = (lo ≤ x) × Rising x xs

pub Rising-lower : (a lo : ℕ) (xs : List ℕ) → a ≤ lo → Rising lo xs → Rising a xs
Rising-lower a lo [] le r = omega arith
Rising-lower a lo (x ∷ xs) le (first, r) = (omega arith, r)

count-insert_sorted :
    (a x : ℕ) (xs : List ℕ) → count a (insert_sorted x xs) ≡ one_if (a == x) + count a xs
unfolding insert_sorted
count-insert_sorted a x [] = omega arith
count-insert_sorted a x (y ∷ ys) = ground (arith, count-insert_sorted a x ys)

count-sort : (a : ℕ) (xs : List ℕ) → count a (sort xs) ≡ count a xs
unfolding sort
count-sort a [] = refl
count-sort a (x ∷ xs) = omega (arith, count-insert_sorted a x (sort xs), count-sort a xs)

insert_sorted-Rising :
    (lo x : ℕ) (xs : List ℕ) → lo ≤ x → Rising lo xs → Rising lo (insert_sorted x xs)
unfolding insert_sorted
insert_sorted-Rising lo x [] le r = (le, omega arith)
insert_sorted-Rising lo x (y ∷ ys) le (first, r) = elim (Bool-cases (leb x y)) [
  | inl before ↦ rw before (le, (leb→le x y before, r))
  | inr behind ↦
      let lt = leb→lt y x behind in rw behind (first, insert_sorted-Rising y x ys (omega arith) r)
]

sort-Rising : (xs : List ℕ) → Rising 0 (sort xs)
unfolding sort
sort-Rising [] = omega arith
sort-Rising (x ∷ xs) = insert_sorted-Rising 0 x (sort xs) (omega arith) (sort-Rising xs)

count-below : (a lo : ℕ) (xs : List ℕ) → a < lo → Rising lo xs → count a xs ≡ 0
count-below a lo [] lt r = refl
count-below a lo (x ∷ xs) lt (first, r) = ground (arith, count-below a x xs)

-- Rising lists with the same items are equal.
Rising-unique :
    (lo lo' : ℕ) (xs ys : List ℕ)
    → Rising lo xs
    → Rising lo' ys
    → ((a : ℕ) → count a xs ≡ count a ys)
    → xs ≡ ys
Rising-unique lo lo' [] [] r r' same = refl
Rising-unique lo lo' [] (y ∷ ys) r r' same = absurd (ground (arith, same y))
Rising-unique lo lo' (x ∷ xs) [] r r' same = absurd (ground (arith, same x))
Rising-unique lo lo' (x ∷ xs) (y ∷ ys) (first, r) (first', r') same =
    let not_below : ¬ x < y = λ lt. ground (arith, same x, count-below x y ys lt r') in
    let not_above : ¬ y < x = λ lt. ground (arith, same y, count-below y x xs lt r) in
    let heads : x ≡ y = ground arith in
    let tails =
      Rising-unique x y xs ys r r' (λ a. omega (arith, same a, ap (λ z. one_if (a == z)) heads)) in
    ap (λ z. z ∷ xs) heads ∙ ap (λ zs. y ∷ zs) tails

pub count-holes : (m : Memory) (a : ℕ) (bs : List Handle) → count a (holes m bs) ≡ free_count m a bs
count-holes m a [] = refl
count-holes m a (b ∷ bs) = ground (arith, count-holes m a bs)

holes-Rising :
    (m : Memory) (bs : List Handle) (lo hi : ℕ) → Chain m lo bs hi → Rising lo (holes m bs)
holes-Rising m [] lo hi c = omega arith
holes-Rising m (b ∷ bs) lo hi (e, block, c) =
    let big = block.big in
    let later = holes-Rising m bs (b + size_at m b) hi c in
    elim (Bool-cases (free_at m b)) [
      | inl free ↦
          rw free (omega arith, Rising-lower b (b + size_at m b) (holes m bs) (omega arith) later)
      | inr live ↦ rw live (Rising-lower lo (b + size_at m b) (holes m bs) (omega arith) later)
    ]

-- What the flag `sorted` promises.
abbrev pub IsOrdered : FreeListSpace → Type 0
IsOrdered s = s.sorted ≡ true → Rising 0 s.free

pub sort_free-holes :
    (s : FreeListSpace) (bs : List Handle)
    → IsSpace s bs
    → IsOrdered s
    → sort_free s ≡ record s { free = holes s.heap.bytes bs; sorted = true }
unfolding sort_free
sort_free-holes s bs is ordered =
    let found = holes s.heap.bytes bs in
    let rising = holes-Rising s.heap.bytes bs 0 s.bump is.chain in
    let counts : (a : ℕ) → count a s.free ≡ count a found =
      λ a. is.listed a ∙ sym (count-holes s.heap.bytes a bs) in
    elim (Bool-cases s.sorted) [
      | inl flag ↦
          let same = Rising-unique 0 0 s.free found (ordered flag) rising counts in
          ap (λ b. if b then s else record s { free = sort s.free; sorted = true }) flag
          ∙ ap (λ f. record s { free = f }) same
          ∙ ap (λ b. record s { free = found; sorted = b }) flag
      | inr flag ↦
          let same =
            Rising-unique 0 0 (sort s.free) found (sort-Rising s.free) rising
              (λ a. count-sort a s.free ∙ counts a) in
          ap (λ b. if b then s else record s { free = sort s.free; sorted = true }) flag
          ∙ ap (λ f. record s { free = f; sorted = true }) same
    ]

-- Sorting touches the list and its flag only, and keeps the entries.
pub sort_free-keeps :
    (s : FreeListSpace)
    → (f : List Handle) × (b : Bool) × (sort_free s ≡ record s { free = f; sorted = b })
      × ((a : ℕ) → count a f ≡ count a s.free)
unfolding sort_free
sort_free-keeps s = elim (Bool-cases s.sorted) [
  | inl flag ↦ (s.free, s.sorted, rw flag refl, λ a. refl)
  | inr flag ↦ (sort s.free, true, rw flag refl, λ a. count-sort a s.free)
]

pub holes-frame :
    {m m' : Memory} {p q : ℕ} (s : SameOutside p q m m') (bs : List Handle) (lo hi : ℕ)
    → q ≤ lo
    → Chain m lo bs hi
    → holes m' bs ≡ holes m bs
holes-frame s [] lo hi le c = refl
holes-frame {m} {m'} s (b ∷ bs) lo hi le (e, block, c) =
    let later = holes-frame s bs (b + size_at m b) hi (omega arith) c in
    let flags = s (b + off_flags) (inr (omega arith)) in rw (flags, later) refl

pub count-reverse : (a : ℕ) (xs : List ℕ) → count a (reverse xs) ≡ count a xs
count-reverse a [] = refl
count-reverse a (x ∷ xs) =
    ap (count a) (List.reverse-append (x ∷ []) xs)
    ∙ count-append a (reverse xs) (x ∷ [])
    ∙ omega (arith, count-reverse a xs)

pub length-holes :
    (m : Memory) (bs : List Handle) (lo hi : ℕ) → Chain m lo bs hi → lo + length (holes m bs) ≤ hi
length-holes m [] lo hi c = omega (arith, c)
length-holes m (b ∷ bs) lo hi (e, block, c) =
    let big = block.big in ground (arith, length-holes m bs (b + size_at m b) hi c)
