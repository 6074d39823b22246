-- ===== src/Space/Validate.antt =====
-- crates/gc-core/src/space.rs: `validate` reports a space as valid exactly where it is well formed.
use gc_united.Base.{
  ℕ, suc, ◌+◌, ◌%◌, ◌≤◌, ◌<◌, ◌≡◌, refl, sym, ◌∙◌, ap, inl, inr, ◌↔◌, arith, true, ◌==◌, ==-refl,
  Bool-cases, List, [], ◌∷◌, count, same_list, ok, panic, u32_values, Exec-cases,
}
use gc_united.Heap.{Handle, header_size, null_addr, align}
use gc_united.Heap.Words.{IsBytes}
use gc_united.Space.{
  FreeListSpace, valid, bad_block, used_differs, free_list_differs, walk_free, compare_used,
  validate,
}
use gc_united.Space.Invariant.{IsSpace, live_bytes}
use gc_united.Space.Holes.{holes, IsOrdered, sort_free-holes, count-holes, sort_free-keeps}
use gc_united.Space.Audit.{walk_free-holes, walk_live_bytes-live_bytes}
use gc_united.Space.Crossed.{walk_free-Chain}

same_list_refl : (xs : List ℕ) → same_list xs xs ≡ true
unfolding same_list
same_list_refl [] = refl
same_list_refl (x ∷ xs) = rw (==-refl x, same_list_refl xs) refl

same_list_eq : (xs ys : List ℕ) → same_list xs ys ≡ true → xs ≡ ys
unfolding same_list
same_list_eq [] [] e = refl
same_list_eq [] (y ∷ ys) e = absurd cc
same_list_eq (x ∷ xs) [] e = absurd cc
same_list_eq (x ∷ xs) (y ∷ ys) e =
    let heads : x ≡ y = ground arith in
    let rest : same_list xs ys ≡ true = ground arith in
    ap (λ z. z ∷ xs) heads ∙ ap (λ zs. y ∷ zs) (same_list_eq xs ys rest)

-- The report on a well-formed space.
validate-valid :
    (s : FreeListSpace) (bs : List Handle)
    → IsSpace s bs
    → IsOrdered s
    → s.bump + header_size < u32_values
    → validate s ≡ ok (record s { free = holes s.heap.bytes bs; sorted = true }, valid)
unfolding validate compare_used
validate-valid s bs is ordered small =
    let found = holes s.heap.bytes bs in
    let sorted : FreeListSpace = record s { free = found; sorted = true } in
    let within = is.within in
    rw
      (
        walk_free-holes s.heap s.bump within small (suc s.bump) 0 bs is.chain (omega arith),
        sort_free-holes s bs is ordered,
      )
      (rw
        (
          same_list_refl found,
          walk_live_bytes-live_bytes sorted bs is.chain within small,
          is.accounted,
          ==-refl (live_bytes s.heap.bytes bs),
        )
        refl)

-- A space on which it reports nothing is well formed.
validate_sound :
    (s s' : FreeListSpace)
    → s.bump ≤ s.heap.len
    → s.heap.len % align ≡ 0
    → s.heap.len < null_addr
    → s.bump + header_size < u32_values
    → IsBytes s.heap.bytes
    → validate s ≡ ok (s', valid)
    → (bs : List Handle) × IsSpace s bs
unfolding validate compare_used
validate_sound s s' within whole addressable small bytes run =
    let (f, b, shape, counts) = sort_free-keeps s in
    let sorted : FreeListSpace = record s { free = f; sorted = b } in
    elim (Exec-cases (walk_free (suc s.bump) s.heap 0 s.bump)) [
      | inl p ↦ let stop : validate s ≡ panic = rw p refl in absurd cc
      | inr ((bad_block a n, found), p) ↦
          let stop : validate s ≡ ok (s, bad_block a n) = rw p refl in absurd cc
      | inr ((free_list_differs l w, found), p) ↦
          let stop : validate s ≡ ok (s, free_list_differs l w) = rw p refl in absurd cc
      | inr ((used_differs a n, found), p) ↦
          let stop : validate s ≡ ok (s, used_differs a n) = rw p refl in absurd cc
      | inr ((valid, found), p) ↦
          let (bs, chain, eq) =
            walk_free-Chain s.heap s.bump within (suc s.bump) 0 found p (omega arith) in
          let live = live_bytes s.heap.bytes bs in
          elim (Bool-cases (same_list f found)) [
            | inr differs ↦
                let stop : validate s ≡ ok (sorted, free_list_differs f found) =
                  rw (p, shape) (rw differs refl) in
                absurd cc
            | inl same ↦ elim (Bool-cases (s.used == live)) [
              | inr other ↦
                  let stop : validate s ≡ ok (sorted, used_differs s.used live) =
                    rw (p, shape)
                      (rw (same, walk_live_bytes-live_bytes sorted bs chain within small, other)
                        refl) in
                  absurd cc
              | inl equal ↦ (
                bs,
                record {
                  chain = chain;
                  within = within;
                  whole = whole;
                  addressable = addressable;
                  listed = λ a.
                      sym (counts a)
                      ∙ ap (count a) (same_list_eq f found same ∙ eq)
                      ∙ count-holes s.heap.bytes a bs;
                  accounted = ground arith;
                  bytes = bytes;
                },
              )
            ]
          ]
    ]

-- Where the arena of a space is one that `Heap.new` makes and its bump pointer lies in it, `validate`
-- reports the space as valid if and only if there are blocks for which it is well formed.
pub validate-IsSpace :
    (s : FreeListSpace)
    → IsOrdered s
    → s.bump ≤ s.heap.len
    → s.heap.len % align ≡ 0
    → s.heap.len < null_addr
    → s.bump + header_size < u32_values
    → IsBytes s.heap.bytes
    → ((s' : FreeListSpace) × (validate s ≡ ok (s', valid))) ↔ ((bs : List Handle) × IsSpace s bs)
unfolding validate compare_used
validate-IsSpace s ordered within whole addressable small bytes = (
  λ (s', run). validate_sound s s' within whole addressable small bytes run,
  λ (bs, is). (_, validate-valid s bs is ordered small),
)
