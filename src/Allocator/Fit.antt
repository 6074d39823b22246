-- ===== src/Allocator/Fit.antt =====
-- crates/gc-mod01/src/lib.rs: the search of the free list, and `Vec::remove`.
use gc_united.Base.{
  ℕ, zero, suc, ◌+◌, ◌≤◌, ◌<◌, ◌≡◌, refl, arith, ℕ_discrete, true, false, ◌==◌, inl, inr, List, [],
  ◌∷◌, get_elem?, take, has, count, one_if, Option, none, some, ok, leb, Bool-cases, leb→le, leb→lt,
}
use gc_united.Heap.{Heap, Handle, header_size}
use gc_united.Heap.Views.{size_at, size-ok}
use gc_united.Allocator.{fits, first_fit, remove}

-- A block fits when it holds the request and the header of a remainder.
pub fits-ok :
    (hp : Heap) (b : Handle) (need : ℕ)
    → b + header_size ≤ hp.len
    → fits hp b need ≡ ok (leb (need + header_size) (size_at hp.bytes b))
unfolding fits
fits-ok hp b need inside = rw (size-ok hp b inside) (ground arith)

-- No block of the list has room for the request and a header behind it.
abbrev pub AllSmall : Heap → ℕ → List Handle → Type 0
AllSmall hp need bs = (b : ℕ) → has b bs ≡ true → size_at hp.bytes b < need + header_size

AllSmall-cons :
    (hp : Heap) (need : ℕ) (b : Handle) (bs : List Handle)
    → size_at hp.bytes b < need + header_size
    → AllSmall hp need bs
    → AllSmall hp need (b ∷ bs)
AllSmall-cons hp need b bs small rest a h = elim (ℕ_discrete a b) [
  | yes e ↦ rw e small
  | no ne ↦ rest a (ground arith)
]

-- The first block that fits, at its index, or the reason why there is none.
abbrev pub Fit : Heap → ℕ → List Handle → Option ℕ → ℕ → Type 0
Fit hp need free none i = AllSmall hp need free
Fit hp need free (some k) i =
    (j : ℕ) × (b : Handle) × (k ≡ i + j)
    × (get_elem? free j ≡ some b)
    × (need + header_size ≤ size_at hp.bytes b)
    × AllSmall hp need (take j free)

pub first_fit-Fit :
    (hp : Heap) (need i : ℕ) (free : List Handle)
    → ((a : ℕ) → has a free ≡ true → a + header_size ≤ hp.len)
    → (o : Option ℕ) × (first_fit hp need i free ≡ ok o) × Fit hp need free o i
unfolding first_fit
first_fit-Fit hp need i [] inside = (none, refl, λ a h. cc)
first_fit-Fit hp need i (b ∷ bs) inside =
    let runs = fits-ok hp b need (inside b (ground arith)) in
    elim (Bool-cases (leb (need + header_size) (size_at hp.bytes b))) [
      | inl fit ↦ (some i, rw (runs, fit), (0, b, omega arith, refl, leb→le _ _ fit, λ a h. cc))
      | inr small ↦
          let (o, e, found) = first_fit-Fit hp need (suc i) bs (λ a h. inside a (ground arith)) in
          (o, rw (runs, small, e), later o small found)
    ]
  where
    later :
        (o : Option ℕ)
        → leb (need + header_size) (size_at hp.bytes b) ≡ false
        → Fit hp need bs o (suc i)
        → Fit hp need (b ∷ bs) o i
    later none small found = AllSmall-cons hp need b bs (leb→lt _ _ small) found
    later (some k) small (j, c, e, at, big, ahead) = (
      suc j,
      c,
      omega arith,
      at,
      big,
      AllSmall-cons hp need b (take j bs) (leb→lt _ _ small) ahead,
    )

pub remove-count :
    (xs : List Handle) (i : ℕ) (b : Handle)
    → get_elem? xs i ≡ some b
    → (rest : List Handle) × (remove i xs ≡ ok (b, rest))
      × ((a : ℕ) → count a xs ≡ one_if (a == b) + count a rest)
unfolding remove
remove-count [] i b h = cc
remove-count (x ∷ xs) zero b h =
    let same : x ≡ b = ground arith in (xs, rw same refl, λ a. rw same refl)
remove-count (x ∷ xs) (suc i) b h =
    let (rest, runs, counts) = remove-count xs i b h in
    (x ∷ rest, rw runs refl, λ a. omega (arith, counts a))
