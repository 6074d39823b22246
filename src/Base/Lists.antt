-- ===== src/Base/Lists.antt =====
-- Lists measured and indexed by native numbers, under the library's names.
use Prim.Native.Nat.{ℕ, zero, suc, ◌+◌, ◌<◌}
use mathlib.Core.Path.{◌≡◌, refl, sym, ap}
use mathlib.Core.Bool.{Bool, true, false, ◌&&◌, ◌||◌}
use native.Mathlib.Decide.{ℕ_discrete}
use gc_united.Base.Tests.{◌==◌, leb, if◌then◌else◌}
use mathlib.Core.Logic.{◌⊎◌, inl, inr}
use mathlib.Core.List.{List, [], ◌∷◌, ◌++◌}
use mathlib.Core.Option.{Option, none, some}
use native.Mathlib.Omega.{arith}

module _ {ℓ} {A : Type ℓ} where
  abbrev pub length : List A → ℕ
  length [] = 0
  length (x ∷ xs) = suc (length xs)

  abbrev pub get_elem? : List A → ℕ → Option A
  get_elem? [] i = none
  get_elem? (x ∷ xs) zero = some x
  get_elem? (x ∷ xs) (suc i) = get_elem? xs i

  -- A write out of bounds changes nothing.
  abbrev pub set : List A → ℕ → A → List A
  set [] i v = []
  set (x ∷ xs) zero v = v ∷ xs
  set (x ∷ xs) (suc i) v = x ∷ set xs i v

  abbrev pub take : ℕ → List A → List A
  take zero xs = []
  take (suc n) [] = []
  take (suc n) (x ∷ xs) = x ∷ take n xs

  abbrev pub drop : ℕ → List A → List A
  drop zero xs = xs
  drop (suc n) [] = []
  drop (suc n) (x ∷ xs) = drop n xs

  abbrev pub replicate : ℕ → A → List A
  replicate zero a = []
  replicate (suc n) a = a ∷ replicate n a

  pub length-append : (xs ys : List A) → length (xs ++ ys) ≡ length xs + length ys
  length-append [] ys = omega arith
  length-append (x ∷ xs) ys = omega (arith, length-append xs ys)

  pub List-cases : (xs : List A) → (xs ≡ []) ⊎ ((x : A) × (rest : List A) × (xs ≡ x ∷ rest))
  List-cases [] = inl refl
  List-cases (x ∷ xs) = inr (x, xs, refl)

module _ {ℓ} {A : Type ℓ} where
  -- `Vec::pop`: the list without its last item, and that item.
  unfoldable pub unsnoc : List A → Option (List A × A)
  unsnoc [] = none
  unsnoc (x ∷ xs) = elim (unsnoc xs) [ none ↦ some ([], x) | some (ys, y) ↦ some (x ∷ ys, y) ]

pub unsnoc-append {ℓ} :
    {A : Type ℓ} (x : A) (xs : List A)
    → (front : List A) × (last : A) × (unsnoc (x ∷ xs) ≡ some (front, last))
      × (x ∷ xs ≡ front ++ last ∷ [])
unfolding unsnoc
unsnoc-append x [] = ([], x, refl, refl)
unsnoc-append x (y ∷ ys) =
    let (front, last, e, whole) = unsnoc-append y ys in
    (x ∷ front, last, rw e, ap (λ zs. x ∷ zs) whole)

-- `[T]::sort` on numbers.
unfoldable pub insert_sorted : ℕ → List ℕ → List ℕ
insert_sorted x [] = x ∷ []
insert_sorted x (y ∷ ys) = if leb x y then x ∷ y ∷ ys else y ∷ insert_sorted x ys

unfoldable pub sort : List ℕ → List ℕ
unfolding insert_sorted
sort [] = []
sort (x ∷ xs) = insert_sorted x (sort xs)

unfoldable pub same_list : List ℕ → List ℕ → Bool
same_list [] [] = true
same_list (x ∷ xs) (y ∷ ys) = (x == y) && same_list xs ys
same_list _ _ = false

-- How often a number stands in a list, and whether it does.
abbrev pub one_if : Bool → ℕ
one_if true = 1
one_if false = 0

abbrev pub count : ℕ → List ℕ → ℕ
count a [] = 0
count a (x ∷ xs) = one_if (a == x) + count a xs

abbrev pub has : ℕ → List ℕ → Bool
has a [] = false
has a (x ∷ xs) = (a == x) || has a xs

pub has-append : (a : ℕ) (xs ys : List ℕ) → has a (xs ++ ys) ≡ (has a xs || has a ys)
has-append a [] ys = refl
has-append a (x ∷ xs) ys = ground (arith, has-append a xs ys)

pub count-append :
    (n : ℕ) (front back : List ℕ) → count n (front ++ back) ≡ count n front + count n back
count-append n [] back = omega arith
count-append n (m ∷ front) back = omega (arith, count-append n front back)

pub split_at :
    (a : ℕ) (xs : List ℕ)
    → has a xs ≡ true
    → (front : List ℕ) × (back : List ℕ) × (xs ≡ front ++ a ∷ back)
split_at a [] h = cc
split_at a (x ∷ xs) h = elim (ℕ_discrete a x) [
  | yes e ↦ ([], xs, ap (λ y. y ∷ xs) (sym e))
  | no ne ↦
      let (front, back, e) = split_at a xs (ground arith) in (x ∷ front, back, ap (λ ys. x ∷ ys) e)
]

pub count-pos_of_has : (a : ℕ) (xs : List ℕ) → has a xs ≡ true → 0 < count a xs
count-pos_of_has a [] h = cc
count-pos_of_has a (x ∷ xs) h = ground (arith, count-pos_of_has a xs)

pub has_of_count-pos : (a : ℕ) (xs : List ℕ) → 0 < count a xs → has a xs ≡ true
has_of_count-pos a [] h = absurd (omega arith)
has_of_count-pos a (x ∷ xs) h = ground (arith, has_of_count-pos a xs)
