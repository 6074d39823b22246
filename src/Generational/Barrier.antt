-- ===== src/Generational/Barrier.antt =====
-- crates/gc-mod07/src/lib.rs: the write barrier.
use gc_united.Base.{
  ℕ, ◌+◌, ◌*◌, ◌≤◌, ◌<◌, ◌≡◌, refl, ◌∙◌, ap, inl, arith, true, false, ◌==◌, one_if, [], ◌∷◌, ◌++◌,
  length, count, count-append, ok, u64_values, add64-ok, le→leb,
}
use gc_united.Heap.{
  Memory, Heap, Handle, header_size, off_flags, off_nrefs, flag_buffered, is_null, write, put8,
  put32, with_bit,
}
use gc_united.Heap.Words.{put8-SameOutside, put32-SameOutside, frame16}
use gc_united.Heap.Views.{nrefs_at, flags_at, set_flag-ok, set_field-ok}
use gc_united.Generational.{Generational, is_young, remember, write_field}

-- The object has a slot `i`, and its slots lie in the heap.
pub record IsStorable (hp : Heap) (obj : Handle) (i : ℕ) : Type 0 where
  pub named : i < nrefs_at hp.bytes obj
  pub room : obj + header_size + 4 * nrefs_at hp.bytes obj ≤ hp.len

module _ (gc : Generational) (obj : Handle) (i : ℕ) (val : Handle) (is : IsStorable gc.heap obj i)
    (some_object : is_null val ≡ false) (young_val : gc.nursery ≤ val)
    (hits : gc.stats.barrier_hits + 1 < u64_values) where
  -- The memory after the barrier and the store.
  abbrev flagged : Memory
  flagged =
      put8 gc.heap.bytes (obj + off_flags)
        (with_bit (flags_at gc.heap.bytes obj) flag_buffered true)

  abbrev stored : Memory
  stored = put32 flagged (obj + header_size + 4 * i) val

  nrefs_flagged : nrefs_at flagged obj ≡ nrefs_at gc.heap.bytes obj
  nrefs_flagged =
      frame16
        (put8-SameOutside gc.heap.bytes (obj + off_flags) _ (obj + 6) (obj + 7) (omega arith)
          (omega arith))
        (obj + off_nrefs) (inl (omega arith))

  nrefs_stored : nrefs_at stored obj ≡ nrefs_at gc.heap.bytes obj
  nrefs_stored =
      frame16
        (put32-SameOutside flagged (obj + header_size + 4 * i) val (obj + 16) (obj + 20 + 4 * i)
          (omega arith) (omega arith))
        (obj + off_nrefs) (inl (omega arith))
      ∙ nrefs_flagged

  -- The store of a young object is remembered, whatever holds it.
  write_young :
      (gc' : Generational) × (write_field gc obj i val ≡ ok gc')
      × (gc'.remembered ≡ gc.remembered ++ obj ∷ [])
      × (gc'.heap ≡ write gc.heap stored)
      × (gc'.nursery ≡ gc.nursery)
      × (gc'.stats.barrier_hits ≡ gc.stats.barrier_hits + 1)
  unfolding write_field is_young remember
  write_young =
      let named = is.named in
      let room = is.room in
      let entries = gc.remembered ++ obj ∷ [] in
      (
        record gc {
          heap = write gc.heap stored;
          remembered = entries;
          stats = record gc.stats {
            barrier_hits = gc.stats.barrier_hits + 1;
            remembered_entries = length entries;
          };
        },
        rw
            (
              add64-ok gc.stats.barrier_hits 1 hits,
              some_object,
              le→leb gc.nursery val young_val,
              set_flag-ok gc.heap obj (omega arith) flag_buffered true,
              set_field-ok (write gc.heap flagged) obj (omega arith) i
                  (omega (arith, nrefs_flagged)) (omega arith) val,
            )
            refl,
        refl,
        refl,
        refl,
        refl,
      )

-- The object has a slot `i` in the heap, `val` is an object of the nursery, and the counter has
-- room. Then storing `val` into the slot twice adds two entries for the object to the remembered
-- set, whether it was in the set before or not, and also where the object is itself in the nursery.
pub write_field-remembers_twice :
    (gc : Generational) (obj : Handle) (i : ℕ) (val : Handle)
    → IsStorable gc.heap obj i
    → is_null val ≡ false
    → gc.nursery ≤ val
    → gc.stats.barrier_hits + 2 < u64_values
    → (gc1 : Generational) × (write_field gc obj i val ≡ ok gc1)
      × (gc2 : Generational) × (write_field gc1 obj i val ≡ ok gc2)
      × (count obj gc2.remembered ≡ count obj gc.remembered + 2)
      × ((c : Handle) → (c == obj) ≡ false → count c gc2.remembered ≡ count c gc.remembered)
write_field-remembers_twice gc obj i val is some_object young_val hits =
    let (gc1, runs, entry, heap, nursery, counted) =
      write_young gc obj i val is some_object young_val (omega arith) in
    let m1 = stored gc obj i val is some_object young_val (omega arith) in
    let kept = nrefs_stored gc obj i val is some_object young_val (omega arith) in
    let named = is.named in
    let room = is.room in
    let same : nrefs_at gc1.heap.bytes obj ≡ nrefs_at gc.heap.bytes obj =
      ap (λ h. nrefs_at h.bytes obj) heap ∙ kept in
    let len : gc1.heap.len ≡ gc.heap.len = ap (λ h. h.len) heap in
    let is1 : IsStorable gc1.heap obj i = record {
      named = omega (arith, same);
      room = omega (arith, same, len);
    } in
    let (gc2, runs', entry', _, _, _) =
      write_young gc1 obj i val is1 some_object (omega (arith, nursery)) (omega (arith, counted)) in
    let both : gc2.remembered ≡ (gc.remembered ++ obj ∷ []) ++ obj ∷ [] =
      entry' ∙ ap (λ l. l ++ obj ∷ []) entry in
    let counts : (c : Handle)
        → count c gc2.remembered ≡ count c gc.remembered + 2 * one_if (c == obj) =
      λ c.
        ap (count c) both
        ∙ omega (
          arith,
          count-append c (gc.remembered ++ obj ∷ []) (obj ∷ []),
          count-append c gc.remembered (obj ∷ []),
        ) in
    (gc1, runs, gc2, runs', ground (arith, counts obj), λ c other. ground (arith, counts c))
