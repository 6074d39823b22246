-- ===== src/Space/Gaps.antt =====
-- crates/gc-core/src/space.rs: a free list in address order without two blocks side by side.
use mathlib.Core.List
use mathlib.Core.List.{reverse}
use gc_united.Base.{
  ℕ, suc, ◌+◌, ◌≤◌, ◌<◌, ◌≡◌, refl, arith, true, List, [], ◌∷◌, ◌++◌, has, count-pos_of_has,
  has_of_count-pos, ==-refl, subst, sym,
}
use gc_united.Heap.{Memory, Handle}
use gc_united.Heap.Views.{size_at}
use gc_united.Space.Holes.{Rising, Rising-lower, count-reverse}
use gc_united.Space.Merge.{Spaced, Spaced-below}

-- From `lo` on, each block begins behind the end of the one ahead of it.
abbrev pub Gapped : Memory → ℕ → List Handle → Type 0
Gapped m lo [] = Unit {0}
Gapped m lo (x ∷ xs) = (lo ≤ x) × Gapped m (suc (x + size_at m x)) xs

Gapped-append :
    (m : Memory) (lo x : ℕ) (xs : List Handle)
    → lo ≤ x
    → Gapped m lo xs
    → ((y : Handle) → has y xs ≡ true → y + size_at m y < x)
    → Gapped m lo (xs ++ x ∷ [])
Gapped-append m lo x [] le g below = (le, tt)
Gapped-append m lo x (z ∷ zs) le (first, g) below =
    let ahead = below z (rw ==-refl refl) in
    (
      first,
      Gapped-append m (suc (z + size_at m z)) x zs (omega arith) g
          (λ y mem. below y (ground arith)),
    )

-- What stands ahead of a tail is as gapped.
pub Gapped-front :
    (m : Memory) (lo : ℕ) (xs ys : List Handle) → Gapped m lo (xs ++ ys) → Gapped m lo xs
Gapped-front m lo [] ys g = tt
Gapped-front m lo (x ∷ xs) ys (first, g) = (first, Gapped-front m (suc (x + size_at m x)) xs ys g)

pub Gapped-Rising : (m : Memory) (lo : ℕ) (xs : List Handle) → Gapped m lo xs → Rising lo xs
Gapped-Rising m lo [] g = omega arith
Gapped-Rising m lo (x ∷ xs) (first, g) = (
  first,
  Rising-lower x (suc (x + size_at m x)) xs (omega arith)
      (Gapped-Rising m (suc (x + size_at m x)) xs g),
)

-- The merged blocks, turned round.
pub Gapped-reverse : (m : Memory) (xs : List Handle) → Spaced m xs → Gapped m 0 (reverse xs)
Gapped-reverse m [] sp = tt
Gapped-reverse m (x ∷ xs) sp =
    let tail_spaced : Spaced m xs = tail xs sp in
    subst (Gapped m 0) (sym (List.reverse-append (x ∷ []) xs)) (
      Gapped-append m 0 x (reverse xs) (omega arith) (Gapped-reverse m xs tail_spaced) (λ y mem.
        Spaced-below m x xs sp y (
          has_of_count-pos y xs
            (omega (arith, count-reverse y xs, count-pos_of_has y (reverse xs) mem)))))
  where
    tail : (ys : List Handle) → Spaced m (x ∷ ys) → Spaced m ys
    tail [] s = tt
    tail (y ∷ ys) (gap, s) = s
