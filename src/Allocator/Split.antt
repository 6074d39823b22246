-- ===== src/Allocator/Split.antt =====
-- crates/gc-mod01/src/lib.rs: what a split does to the address order of the free list.
use gc_united.Base.{
  ℕ, ◌+◌, ◌^◌, ◌≤◌, ◌<◌, ◌≡◌, sym, ap, ◌∙◌, inl, inr, arith, true, false, List, [], ◌∷◌, ◌++◌, has,
  get_elem?, some, ok, Bool-cases, le→leb,
}
use gc_united.Heap.{Handle, header_size, size_for}
use gc_united.Heap.Views.{size_at}
use gc_united.Space.Invariant.{IsSpace}
use gc_united.Space.Alloc.{free_block_of_listed, inside_of_has, inside_of_listed}
use gc_united.Space.Apart.{Chain-apart}
use gc_united.Allocator.{Allocator, view, first, first_fit, alloc, in_order, remove}
use gc_united.Allocator.Fit.{fits-ok}
use gc_united.Allocator.Outcome.{HasCounterRoom, alloc-found}

-- A list in order that ends in `x` begins below it.
in_order-append : (c : ℕ) (cs : List Handle) (x : ℕ) → in_order (c ∷ cs ++ x ∷ []) ≡ true → c < x
unfolding in_order
in_order-append c [] x order = ground arith
in_order-append c (d ∷ cs) x order = ground (arith, in_order-append d cs x)

rest_of_remove :
    (xs tail rest : List Handle) (b h : Handle)
    → xs ≡ b ∷ tail
    → remove 0 xs ≡ ok (h, rest)
    → rest ≡ tail
unfolding remove
rest_of_remove [] tail rest b h e r = cc
rest_of_remove (x ∷ xs) tail rest b h e r = cc

module _ (a : Allocator) (refs ndata need : ℕ) (sized : size_for refs ndata ≡ ok need)
    (small : refs < 2 ^ 16) (policy : a.policy ≡ first) (room : HasCounterRoom a.stats need)
    (bs : List Handle) (is : IsSpace (view a) bs) where
  -- The policy is first fit, the heap is well formed and the counters have room. The free list is in
  -- address order and has at least two blocks, of which the first holds the
  -- request and a header behind it. Then `alloc` hands out the first and leaves a list out of order.
  pub alloc-unsorts :
      (b c : Handle) (cs : List Handle)
      → a.free_handles ≡ b ∷ c ∷ cs
      → in_order (b ∷ c ∷ cs) ≡ true
      → need + header_size ≤ size_at a.heap.bytes b
      → (a' : Allocator) × (alloc a refs ndata ≡ ok (a', some b))
        × (in_order a'.free_handles ≡ false)
  unfolding in_order first_fit
  alloc-unsorts b c cs listed order big =
      let b_listed : has b a.free_handles ≡ true = rw listed (ground arith) in
      let c_listed : has c a.free_handles ≡ true = rw listed (ground arith) in
      let (b_in, _) = free_block_of_listed is b b_listed in
      let (c_in, _) = free_block_of_listed is c c_listed in
      let b_fits : first_fit a.heap need 0 a.free_handles ≡ ok (some 0) =
        rw (listed, fits-ok a.heap b need (inside_of_listed is b b_listed), le→leb _ _ big) in
      let (a', bs', runs, _, _, rest, removed, after) =
        alloc-found a refs ndata need sized small policy room bs is b 0 b_fits
          (ap (λ l. get_elem? l 0) listed) big in
      let (_, _, block) = inside_of_has is c c_in in
      let c_big = block.big in
      let behind : b + need < c =
        ground (arith, Chain-apart a.heap.bytes bs 0 a.bump b c is.chain b_in c_in) in
      let kept = rest_of_remove a.free_handles (c ∷ cs) rest b b listed removed in
      let shape : a'.free_handles ≡ c ∷ cs ++ (b + need) ∷ [] =
        after ∙ ap (λ l. l ++ (b + need) ∷ []) kept in
      (
        a',
        runs,
        elim (Bool-cases (in_order a'.free_handles)) [
          | inl ordered ↦
              absurd
                (omega (arith, in_order-append c cs (b + need) (sym (ap in_order shape) ∙ ordered)))
          | inr unordered ↦ unordered
        ],
      )
