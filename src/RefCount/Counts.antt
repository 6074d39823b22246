-- ===== src/RefCount/Counts.antt =====
-- crates/gc-mod02/src/lib.rs: `retain` and `release` of an object that is referred to elsewhere.
use gc_united.Base.{
  ℕ, suc, ◌+◌, ◌-◌, ◌≤◌, ◌<◌, ◌≡◌, refl, sym, ◌∙◌, ap, arith, true, false, List, [], ◌∷◌, ◌++◌, has,
  ok, ◌==◌, u32_values, add32-ok, sub_checked-ok, lt→ltb, length,
}
use gc_united.Heap.{Handle, header_size, is_null, off_rc, write, put32}
use gc_united.Heap.Words.{SameOutside, word32-put32, word32-lt, put32-SameOutside, IsBytes-put32}
use gc_united.Heap.Views.{rc_at, rc-ok, set_rc-ok}
use gc_united.Space.Invariant.{IsSpace}
use gc_united.Space.Alloc.{inside_of_has}
use gc_united.Space.Poke.{IsSpace-over}
use gc_united.RefCount.{RefCount, with_heap, retain, release, drop_one, drain}

-- `gc'` is `gc` with the count of `h` set to `n`: the space stays well formed and no byte outside
-- the count has changed.
pub record IsCounted (gc gc' : RefCount) (bs : List Handle) (h n : ℕ) : Type 0 where
  pub space : IsSpace gc'.space bs
  pub count : rc_at gc'.space.heap.bytes h ≡ n
  pub same : SameOutside (h + off_rc) (h + off_rc + 4) gc.space.heap.bytes gc'.space.heap.bytes
  pub rest : gc' ≡ with_heap gc gc'.space.heap

module _ (gc : RefCount) (bs : List Handle) (h : Handle) (is : IsSpace gc.space bs)
    (member : has h bs ≡ true) where
  pub header_inside : h + header_size ≤ gc.space.heap.len
  header_inside =
      let (aligned, inside, block) = inside_of_has is h member in
      let big = block.big in let within = is.within in omega arith

  pub ne_null : is_null h ≡ false
  ne_null = let room = header_inside in let small = is.addressable in ground arith

  pub counted :
      (n : ℕ)
      → n < u32_values
      → IsCounted gc
          (with_heap gc (write gc.space.heap (put32 gc.space.heap.bytes (h + off_rc) n)))
          bs
          h
          n
  counted n small =
      let m = gc.space.heap.bytes in
      let (aligned, inside, block) = inside_of_has is h member in
      let big = block.big in
      let change =
        put32-SameOutside m (h + off_rc) n (h + off_rc) (h + off_rc + 4) (omega arith)
          (omega arith) in
      record {
        space =
            IsSpace-over h is member change (IsBytes-put32 m (h + off_rc) n is.bytes) (omega arith)
              (omega arith);
        count = omega (arith, word32-put32 m (h + off_rc) n);
        same = change;
        rest = refl;
      }

  -- `retain` of a block of a well-formed space, whose count is not at its end, adds one to the count
  -- and changes nothing else.
  pub retain-IsCounted :
      rc_at gc.space.heap.bytes h + 1 < u32_values
      → (gc' : RefCount) × (retain gc h ≡ ok gc')
        × IsCounted gc gc' bs h (rc_at gc.space.heap.bytes h + 1)
  unfolding retain
  retain-IsCounted small =
      let hp = gc.space.heap in
      let n = rc_at hp.bytes h in
      (
        with_heap gc (write hp (put32 hp.bytes (h + off_rc) (n + 1))),
        rw (
          ne_null,
          rc-ok hp h header_inside,
          add32-ok n 1 small,
          set_rc-ok hp h header_inside (n + 1),
        ),
        counted (n + 1) small,
      )

  drop_shared :
      1 < rc_at gc.space.heap.bytes h
      → drop_one gc h
        ≡ ok (
            with_heap gc (
              write gc.space.heap
                (put32 gc.space.heap.bytes (h + off_rc) (rc_at gc.space.heap.bytes h - 1))))
  unfolding drop_one
  drop_shared many =
      let hp = gc.space.heap in
      let n = rc_at hp.bytes h in
      let more : (n == 1) ≡ false = ground arith in
      rw (
        rc-ok hp h header_inside,
        lt→ltb 0 n (omega arith),
        sub_checked-ok n 1 (omega arith),
        set_rc-ok hp h header_inside (n - 1),
        more,
      )

drain_empty : (gc : RefCount) → gc.pending ≡ [] → drain 0 gc ≡ ok gc
unfolding drain
drain_empty gc empty = ground arith

-- With nothing else pending, `release` is one round.
pub release_one :
    (gc gc' : RefCount) (h : Handle)
    → gc.pending ≡ []
    → is_null h ≡ false
    → drop_one (record gc { pending = [] }) h ≡ ok gc'
    → gc'.pending ≡ []
    → release gc h ≡ ok gc'
unfolding release drain
release_one gc gc' h idle some_object one empty = rw some_object (
    ap (λ l. drain (suc (length l)) (record gc { pending = l ++ h ∷ [] })) idle
    ∙ rw one (drain_empty gc' empty))

module _ (gc : RefCount) (bs : List Handle) (h : Handle) (is : IsSpace gc.space bs)
    (member : has h bs ≡ true) (idle : gc.pending ≡ []) where
  -- With nothing pending, `release` of a block of a well-formed space that has more than one
  -- reference takes one off its count, keeps the object, and changes nothing else.
  pub release-IsCounted :
      1 < rc_at gc.space.heap.bytes h
      → (gc' : RefCount) × (release gc h ≡ ok gc')
        × IsCounted gc gc' bs h (rc_at gc.space.heap.bytes h - 1)
  release-IsCounted many =
      let n = rc_at gc.space.heap.bytes h in
      let gc0 = record gc { pending = [] } in
      let after = write gc.space.heap (put32 gc.space.heap.bytes (h + off_rc) (n - 1)) in
      let same : with_heap gc0 after ≡ with_heap gc after =
        ap (λ l. record (with_heap gc after) { pending = l }) (sym idle) in
      let runs =
        release_one gc (with_heap gc0 after) h idle (ne_null gc bs h is member)
          (drop_shared gc0 bs h is member many) refl in
      (
        with_heap gc after,
        runs ∙ ap ok same,
        counted gc bs h is member (n - 1)
            (omega (arith, word32-lt gc.space.heap.bytes (h + off_rc) is.bytes)),
      )
