-- ===== src/CycleCollector/Counts.antt =====
-- crates/gc-mod03/src/lib.rs: `retain`, and `release` of an object that is referred to elsewhere.
use gc_united.Base.{
  ℕ, suc, ◌+◌, ◌-◌, ◌<◌, ◌≡◌, refl, sym, subst, zero, unsnoc, ◌∙◌, ap, inl, inr, arith, true, false,
  Bool-cases, List, [], ◌∷◌, ◌++◌, has, ok, ◌==◌, u32_values, add32-ok, sub_checked-ok, lt→ltb,
  length,
}
use gc_united.Heap.{
  Handle, is_null, off_rc, off_color, off_flags, flag_buffered, has_bit, with_bit, write, put8,
  put32,
}
use gc_united.Heap.Words.{word32-lt}
use gc_united.Heap.Views.{
  rc_at, color_at, flags_at, rc-ok, set_rc-ok, color-ok, set_color-ok, flag-ok, set_flag-ok,
}
use gc_united.Space.Invariant.{IsSpace}
use gc_united.CycleCollector.{
  CycleCollector, with_heap, retain, release, drop_one, drain, possible_root, set_color, color_of,
  buffered, set_buffered, black, purple,
}
use gc_united.CycleCollector.Touch.{
  IsTouched, IsTouched-trans, IsTouched-count, IsTouched-refl, header_inside, not_null, touch_rc,
  touch_color, touch_buffered,
}

-- `gc'` is `gc` with the count of `h` set to `n`; the colour and the flag of a candidate may have
-- changed, and the candidates.
pub record IsRecounted (gc gc' : CycleCollector) (bs : List Handle) (h n : ℕ) : Type 0 where
  pub touched : IsTouched gc.space gc'.space bs h n
  pub rest : gc' ≡ record gc { space = gc'.space; candidates = gc'.candidates }

module _ (gc : CycleCollector) (bs : List Handle) (h : Handle) (is : IsSpace gc.space bs)
    (member : has h bs ≡ true) where
  -- `retain` of a block of a well-formed space, whose count is not at its end, adds one to the
  -- count and turns the object black.
  pub retain-IsRecounted :
      rc_at gc.space.heap.bytes h + 1 < u32_values
      → (gc' : CycleCollector) × (retain gc h ≡ ok gc')
        × IsRecounted gc gc' bs h (rc_at gc.space.heap.bytes h + 1)
  unfolding retain set_color
  retain-IsRecounted small =
      let hp = gc.space.heap in
      let inside = header_inside is h member in
      let n = rc_at hp.bytes h in
      let m1 = put32 hp.bytes (h + off_rc) (n + 1) in
      let counted = touch_rc is h member (n + 1) small in
      let coloured = touch_color counted.space h member black in
      let both = IsTouched-trans counted coloured in
      (
        with_heap gc (write hp (put8 m1 (h + off_color) black)),
        rw
            (
              not_null is h member,
              rc-ok hp h inside,
              add32-ok n 1 small,
              set_rc-ok hp h inside (n + 1),
              set_color-ok (write hp m1) h inside black,
            )
            refl,
        record { touched = IsTouched-count counted.count both; rest = refl },
      )

  -- Filing a block changes its colour and its flag at most.
  file :
      (gc' : CycleCollector) × (possible_root gc h ≡ ok gc')
      × IsRecounted gc gc' bs h (rc_at gc.space.heap.bytes h)
  unfolding possible_root color_of set_color buffered set_buffered
  file =
      let hp = gc.space.heap in
      let m = hp.bytes in
      let inside = header_inside is h member in
      elim (Bool-cases (color_at m h == purple)) [
        | inl before ↦ (
          gc,
          rw (color-ok hp h inside, before) refl,
          record { touched = IsTouched-refl h is; rest = refl },
        )
        | inr other ↦
            let m1 = put8 m (h + off_color) purple in
            let coloured = touch_color is h member purple in
            let gc1 = with_heap gc (write hp m1) in
            let paints = set_color-ok hp h inside purple in
            let reads = flag-ok (write hp m1) h inside flag_buffered in
            elim (Bool-cases (has_bit (flags_at m1 h) flag_buffered)) [
              | inl filed ↦ (
                gc1,
                rw (color-ok hp h inside, other, paints, reads, filed) refl,
                record { touched = coloured; rest = refl },
              )
              | inr new ↦
                  let m2 = put8 m1 (h + off_flags) (with_bit (flags_at m1 h) flag_buffered true) in
                  let flagged = touch_buffered coloured.space h member true in
                  (
                    record (with_heap gc (write hp m2)) { candidates = gc.candidates ++ h ∷ [] },
                    rw
                        (
                          color-ok hp h inside,
                          other,
                          paints,
                          reads,
                          new,
                          set_flag-ok (write hp m1) h inside flag_buffered true,
                        )
                        refl,
                    record {
                      touched = IsTouched-count coloured.count (IsTouched-trans coloured flagged);
                      rest = refl;
                    },
                  )
            ]
      ]

drain_empty : (fuel : ℕ) (gc : CycleCollector) → gc.pending ≡ [] → drain fuel gc ≡ ok gc
unfolding drain unsnoc
drain_empty zero gc empty = ground arith
drain_empty (suc fuel) gc empty = ground arith

-- With nothing else pending, `release` is one round.
release_one :
    (gc gc' : CycleCollector) (h : Handle)
    → gc.pending ≡ []
    → is_null h ≡ false
    → drop_one (record gc { pending = [] }) h ≡ ok gc'
    → gc'.pending ≡ []
    → release gc h ≡ ok gc'
unfolding release drain unsnoc
release_one gc gc' h idle some_object one empty = rw some_object (
    ap (λ l. drain (suc (length l + gc.space.used)) (record gc { pending = l ++ h ∷ [] })) idle
    ∙ rw one (drain_empty _ gc' empty))

-- `release` of a shared object, with nothing else pending.
module _ (gc : CycleCollector) (bs : List Handle) (h : Handle) (is : IsSpace gc.space bs)
    (member : has h bs ≡ true) where
  drop_shared :
      1 < rc_at gc.space.heap.bytes h
      → (gc' : CycleCollector) × (drop_one gc h ≡ ok gc')
        × IsRecounted gc gc' bs h (rc_at gc.space.heap.bytes h - 1)
  unfolding drop_one
  drop_shared many =
      let hp = gc.space.heap in
      let inside = header_inside is h member in
      let n = rc_at hp.bytes h in
      let small = word32-lt hp.bytes (h + off_rc) is.bytes in
      let counted = touch_rc is h member (n - 1) (omega arith) in
      let gc1 = with_heap gc (write hp (put32 hp.bytes (h + off_rc) (n - 1))) in
      let (gc', files, after) = file gc1 bs h counted.space member in
      let more : (n == 1) ≡ false = ground arith in
      (
        gc',
        rw
            (
              rc-ok hp h inside,
              lt→ltb 0 n (omega arith),
              sub_checked-ok n 1 (omega arith),
              set_rc-ok hp h inside (n - 1),
              more,
            )
            files,
        record {
          touched = IsTouched-count counted.count (IsTouched-trans counted after.touched);
          rest = after.rest;
        },
      )

module _ (gc : CycleCollector) (bs : List Handle) (h : Handle) (is : IsSpace gc.space bs)
    (member : has h bs ≡ true) (idle : gc.pending ≡ []) where
  -- With nothing pending, `release` of a block of a well-formed space that has more than one
  -- reference takes one off its count and files the object, which stays.
  pub release-IsRecounted :
      1 < rc_at gc.space.heap.bytes h
      → (gc' : CycleCollector) × (release gc h ≡ ok gc')
        × IsRecounted gc gc' bs h (rc_at gc.space.heap.bytes h - 1)
  release-IsRecounted many =
      let gc0 = record gc { pending = [] } in
      let (gc', drops, after) = drop_shared gc0 bs h is member many in
      let same : gc0 ≡ gc = ap (λ l. record gc { pending = l }) (sym idle) in
      (
        gc',
        release_one gc gc' h idle (not_null is h member) drops (ap (λ g. g.pending) after.rest),
        subst (λ g. IsRecounted g gc' bs h (rc_at gc.space.heap.bytes h - 1)) same after,
      )
