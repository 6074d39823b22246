-- ===== src/Space/Search.antt =====
-- crates/gc-core/src/space.rs: the search of the free list, and `Vec::swap_remove`.
use gc_united.Base.{
  ℕ, zero, suc, ◌+◌, ◌≤◌, ◌<◌, ◌≡◌, refl, ap, ◌⊎◌, inl, inr, arith, ℕ_discrete, ◌≢◌, true, false,
  ◌==◌, List, [], ◌∷◌, ◌++◌, length, get_elem?, set, unsnoc-append, has, count, count-append,
  one_if, Option, none, some, ok, leb, Bool-cases, leb→le, leb→lt,
}
use gc_united.Heap.{Heap, Handle, header_size}
use gc_united.Heap.Views.{size_at, size-ok}
use gc_united.Space.{position, swap_remove}

-- The first block that holds `need` bytes, at its index, or the reason why there is none.
abbrev pub Found : Heap → ℕ → List Handle → Option ℕ → ℕ → Type 0
Found hp need free none i = (a : ℕ) → has a free ≡ true → size_at hp.bytes a < need
Found hp need free (some k) i =
    (j : ℕ) × (b : Handle) × (k ≡ i + j) × (get_elem? free j ≡ some b) × (need ≤ size_at hp.bytes b)

pub position-Found :
    (hp : Heap) (need i : ℕ) (free : List Handle)
    → ((a : ℕ) → has a free ≡ true → a + header_size ≤ hp.len)
    → (o : Option ℕ) × (position hp need i free ≡ ok o) × Found hp need free o i
unfolding position
position-Found hp need i [] inside = (none, refl, λ a h. cc)
position-Found hp need i (b ∷ bs) inside =
    let first = inside b (ground arith) in
    elim (Bool-cases (leb need (size_at hp.bytes b))) [
      | inl fits ↦
          (some i, rw (size-ok hp b first, fits), (0, b, omega arith, refl, leb→le _ _ fits))
      | inr small ↦
          let (o, e, found) = position-Found hp need (suc i) bs (λ a h. inside a (ground arith)) in
          (o, rw (size-ok hp b first, small, e), later o small found)
    ]
  where
    later :
        (o : Option ℕ)
        → leb need (size_at hp.bytes b) ≡ false
        → Found hp need bs o (suc i)
        → Found hp need (b ∷ bs) o i
    later none small found = λ a h. elim (ℕ_discrete a b) [
      | yes e ↦ rw e (leb→lt _ _ small)
      | no ne ↦ found a (ground arith)
    ]
    later (some k) small (j, c, e, at, big) = (suc j, c, omega arith, at, big)

get_elem?-snoc :
    {A : Type 0} (front : List A) (last : A) (i : ℕ) (b : A)
    → get_elem? (front ++ last ∷ []) i ≡ some b
    → ((i ≡ length front) × (last ≡ b)) ⊎ ((i ≢ length front) × (get_elem? front i ≡ some b))
get_elem?-snoc [] last zero b h = inl (refl, ground arith)
get_elem?-snoc [] last (suc i) b h = cc
get_elem?-snoc (x ∷ front) last zero b h = inr ((λ e. absurd (omega arith)), h)
get_elem?-snoc (x ∷ front) last (suc i) b h = elim (get_elem?-snoc front last i b h) [
  | inl (e, same) ↦ inl (ap suc e, same)
  | inr (ne, at) ↦ inr ((λ e. ne (omega arith)), at)
]

count-set :
    (a : ℕ) (xs : List ℕ) (i x v : ℕ)
    → get_elem? xs i ≡ some x
    → count a (set xs i v) + one_if (a == x) ≡ count a xs + one_if (a == v)
count-set a [] i x v h = cc
count-set a (y ∷ xs) zero x v h = let e : y ≡ x = ground arith in rw e (omega arith)
count-set a (y ∷ xs) (suc i) x v h = omega (arith, count-set a xs i x v h)

-- `swap_remove` gives the item at the index and a list with one copy of it less.
pub swap_remove-count :
    (xs : List Handle) (i : ℕ) (b : Handle)
    → get_elem? xs i ≡ some b
    → (rest : List Handle) × (swap_remove i xs ≡ ok (b, rest))
      × ((a : ℕ) → count a xs ≡ one_if (a == b) + count a rest)
unfolding swap_remove
swap_remove-count [] i b h = cc
swap_remove-count (x ∷ xs) i b h =
    let (front, last, e, whole) = unsnoc-append x xs in
    elim (get_elem?-snoc front last i b (rw whole at h)) [
      | inl (at_end, same) ↦ (
        front,
        let hit : (i == length front) ≡ true = ground arith in
            rw (e, swap_remove) (rw hit (ap (λ z. ok (z, front)) same)),
        λ a. omega (
          arith,
          ap (count a) whole,
          (count-append a front (last ∷ [])),
          ap (λ z. one_if (a == z)) same,
        ),
      )
      | inr (ne, at) ↦ (
        set front i last,
        let miss : (i == length front) ≡ false = ground arith in
            rw (e, swap_remove) (rw (miss, at)),
        λ a. omega (
          arith,
          ap (count a) whole,
          (count-append a front (last ∷ [])),
          count-set a front i b last at,
        ),
      )
    ]
