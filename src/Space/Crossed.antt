-- ===== src/Space/Crossed.antt =====
-- crates/gc-core/src/space.rs: what the walk of `validate` has crossed when it reports nothing.
use gc_united.Base.{
  ℕ, zero, suc, ◌+◌, ◌≤◌, ◌<◌, ◌≡◌, refl, sym, ◌∙◌, ap, inl, inr, arith, true, if◌then◌else◌, ltb,
  leb, Bool-cases, List, [], ◌∷◌, ok, panic, ◌>>=◌, u32_values, add32, lt→ltb, le→ltb, Exec-cases,
  ok-inj,
}
use gc_united.Heap
use gc_united.Heap.{Memory, Heap, Handle, header_size, is_aligned, flag_free, null_addr, align}
use gc_united.Heap.Views.{size_at, flag-ok}
use gc_united.Heap.Chain.{Chain, IsBlock, free_at}
use gc_united.Space.{Verdict, valid, bad_block, walk_free}
use gc_united.Space.Holes.{holes}

size-read : (hp : Heap) (h n : ℕ) → Heap.size hp h ≡ ok n → n ≡ size_at hp.bytes h
unfolding Heap.size Heap.u32
size-read hp h n e = elim (Bool-cases (leb (h + 0 + 4) hp.len)) [
  | inl inside ↦
      let read : Heap.size hp h ≡ ok (size_at hp.bytes h) = rw inside refl in ok-inj (sym e ∙ read)
  | inr outside ↦ let stops : Heap.size hp h ≡ panic = rw outside refl in absurd cc
]

add32-sum : (a b c : ℕ) → add32 a b ≡ ok c → c ≡ a + b
unfolding add32
add32-sum a b c e = elim (Bool-cases (ltb (a + b) u32_values)) [
  | inl fits ↦ let sum : add32 a b ≡ ok (a + b) = rw fits refl in ok-inj (sym e ∙ sum)
  | inr over ↦ let stops : add32 a b ≡ panic = rw over refl in absurd cc
]

module _ (hp : Heap) (hi : ℕ) (within : hi ≤ hp.len) where
  -- What such a walk has met from `lo` on.
  abbrev pub Met : ℕ → List Handle → Type 0
  Met lo found = (bs : List Handle) × Chain hp.bytes lo bs hi × (found ≡ holes hp.bytes bs)

  -- The rest of a round, behind the tests on the size of its block.
  walk_free-Met :
      (fuel lo : ℕ) (found : List Handle)
      → lo < hi
      → Heap.size hp lo ≡ ok (size_at hp.bytes lo)
      → IsBlock hp.bytes lo
      → walk_free (suc fuel) hp lo hi ≡ ok (valid, found)
      → ((rest : List Handle)
          → walk_free fuel hp (lo + size_at hp.bytes lo) hi ≡ ok (valid, rest)
          → lo + size_at hp.bytes lo ≤ hi
          → Met (lo + size_at hp.bytes lo) rest)
      → Met lo found
  unfolding walk_free
  walk_free-Met fuel lo found more read block run later =
      let n = size_at hp.bytes lo in
      let big = block.big in
      let starts = lt→ltb lo hi more in
      let round : is_aligned n ≡ true = ground (arith, block.whole) in
      elim (Exec-cases (add32 lo n)) [
        | inl p ↦
            let stop : walk_free (suc fuel) hp lo hi ≡ panic =
              rw (walk_free, starts, read) (rw (◌>>=◌, le→ltb n header_size big, round, p) refl) in
            absurd cc
        | inr (end, p) ↦
            let adds : add32 lo n ≡ ok (lo + n) = p ∙ ap ok (add32-sum lo n end p) in
            elim (Bool-cases (ltb hi (lo + n))) [
              | inl over ↦
                  let stop : walk_free (suc fuel) hp lo hi ≡ ok (bad_block lo n, []) =
                    rw (walk_free, starts, read)
                      (rw (◌>>=◌, le→ltb n header_size big, round, adds) (rw (◌>>=◌, over) refl)) in
                  absurd cc
              | inr fits ↦
                  let within_hi : lo + n ≤ hi = ground arith in
                  elim (Exec-cases (walk_free fuel hp (lo + n) hi)) [
                    | inl q ↦
                        let stop : walk_free (suc fuel) hp lo hi ≡ panic =
                          rw (walk_free, starts, read)
                            (rw (◌>>=◌, le→ltb n header_size big, round, adds)
                              (rw (◌>>=◌, fits, flag-ok hp lo (omega arith) flag_free, q) refl)) in
                        absurd cc
                    | inr ((v, rest), q) ↦
                        let m = hp.bytes in
                        let kept : List Handle = if free_at m lo then lo ∷ rest else rest in
                        let goes : walk_free (suc fuel) hp lo hi ≡ ok (v, kept) =
                          rw (walk_free, starts, read)
                            (rw (◌>>=◌, le→ltb n header_size big, round, adds)
                              (rw (◌>>=◌, fits, flag-ok hp lo (omega arith) flag_free, q) refl)) in
                        let same : Path (Verdict × List Handle) (v, kept) (valid, found) =
                          ok-inj (sym goes ∙ run) in
                        let first : found ≡ kept = sym (ap (λ r. r.1) same) in
                        let (bs, chain, eq) =
                          later rest (q ∙ ap (λ w. ok (w.0, rest)) same) within_hi in
                        let links : kept ≡ holes m (lo ∷ bs) =
                          ap (λ r. if free_at m lo then lo ∷ r else r) eq in
                        (lo ∷ bs, (refl, block, chain), first ∙ links)
                  ]
            ]
      ]

  -- A walk that reports nothing has met blocks end to end, and found the free ones.
  pub walk_free-Chain :
      (fuel lo : ℕ) (found : List Handle)
      → walk_free fuel hp lo hi ≡ ok (valid, found)
      → lo ≤ hi
      → Met lo found
  unfolding walk_free
  walk_free-Chain zero lo found run le = absurd cc
  walk_free-Chain (suc fuel) lo found run le =
      let n = size_at hp.bytes lo in
      elim (Bool-cases (ltb lo hi)) [
        | inr ended ↦
            let stop : walk_free (suc fuel) hp lo hi ≡ ok (valid, []) =
              rw (walk_free, ended) refl in
            ([], ground arith, sym (ap (λ r. r.1) (ok-inj (sym stop ∙ run))))
        | inl more ↦ elim (Exec-cases (Heap.size hp lo)) [
          | inl p ↦
              let stop : walk_free (suc fuel) hp lo hi ≡ panic = rw (walk_free, more, p) refl in
              absurd cc
          | inr (n', p) ↦
              let read = p ∙ ap ok (size-read hp lo n' p) in
              elim (Bool-cases (ltb n header_size)) [
                | inl small ↦
                    let stop : walk_free (suc fuel) hp lo hi ≡ ok (bad_block lo n, []) =
                      rw (walk_free, more, read) (rw (◌>>=◌, small) refl) in
                    absurd cc
                | inr big ↦ elim (Bool-cases (is_aligned n)) [
                  | inr odd ↦
                      let stop : walk_free (suc fuel) hp lo hi ≡ ok (bad_block lo n, []) =
                        rw (walk_free, more, read) (rw (◌>>=◌, big, odd) refl) in
                      absurd cc
                  | inl round ↦
                      walk_free-Met fuel lo found (ground arith) read
                        (record { big = ground arith; whole = ground arith }) run
                        (λ rest r le'. walk_free-Chain fuel (lo + n) rest r le')
                ]
              ]
        ]
      ]
