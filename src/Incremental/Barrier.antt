-- ===== src/Incremental/Barrier.antt =====
-- crates/gc-mod08/src/lib.rs: the write barrier and the colours.
use gc_united.Base.{
  ℕ, ◌+◌, ◌*◌, ◌≤◌, ◌<◌, ◌≡◌, refl, ◌∙◌, inl, arith, true, false, List, has, ok, u64_values,
  add64-ok,
}
use gc_united.Heap.{Handle, header_size, off_color, white, black, is_null, write, put32}
use gc_united.Heap.Words.{word32-put32, put32-SameOutside}
use gc_united.Heap.Views.{color_at, slot_at, color-ok, set_field-ok}
use gc_united.Space.Invariant.{IsSpace}
use gc_united.Space.Alloc.{inside_of_has}
use gc_united.Space.Slots.{HasSlot, slot-apart}
use gc_united.Incremental.{Incremental, marking, barrier, write_field, with_heap}

module _ (gc : Incremental) (bs : List Handle) (obj val : Handle) (i : ℕ) (is : IsSpace gc.space bs)
    (obj_in : has obj bs ≡ true) (val_in : has val bs ≡ true)
    (slot : HasSlot gc.space.heap.bytes obj i) (phase : gc.phase ≡ marking)
    (scanned : color_at gc.space.heap.bytes obj ≡ black)
    (unseen : color_at gc.space.heap.bytes val ≡ white)
    (hits : gc.stats.barrier_hits + 1 < u64_values) where
  room : obj + header_size ≤ gc.space.heap.len
  room =
      let (_, inside, block) = inside_of_has is obj obj_in in
      let big = block.big in let within = is.within in omega arith

  not_null : is_null val ≡ false
  not_null =
      let (_, inside, block) = inside_of_has is val val_in in
      let big = block.big in
      let within = is.within in let addressable = is.addressable in ground arith

  counted : Incremental
  counted = record gc { stats = record gc.stats { barrier_hits = gc.stats.barrier_hits + 1 } }

  passes : barrier counted obj val ≡ ok counted
  unfolding barrier counted
  passes = simp (phase, not_null, color-ok gc.space.heap obj room, scanned)

  -- While marking, over a well-formed space and with room in the counter of barrier hits, a store of
  -- a white object into a slot of a black one returns with the black object naming
  -- the white one, which is neither shaded nor put into the grey set.
  pub write_field-hides :
      (gc' : Incremental) × (write_field gc obj i val ≡ ok gc')
      × (gc'.phase ≡ marking)
      × (slot_at gc'.space.heap.bytes obj i ≡ val)
      × (color_at gc'.space.heap.bytes obj ≡ black)
      × (color_at gc'.space.heap.bytes val ≡ white)
      × (gc'.grey_set ≡ gc.grey_set)
  unfolding write_field counted
  write_field-hides =
      let m = gc.space.heap.bytes in
      let o = obj + header_size + 4 * i in
      let named = slot.named in
      let space = slot.room in
      let (_, inside, _) = inside_of_has is obj obj_in in
      let (_, val_inside, val_block) = inside_of_has is val val_in in
      let val_big = val_block.big in
      let within = is.within in
      let addressable = is.addressable in
      let change = put32-SameOutside m o val o (o + 4) (omega arith) (omega arith) in
      let apart = slot-apart is obj val i slot obj_in val_in in
      (
        with_heap counted (write gc.space.heap (put32 m o val)),
        rw
            (
              add64-ok gc.stats.barrier_hits 1 hits,
              passes,
              set_field-ok gc.space.heap obj room i named (omega arith) val,
            )
            refl,
        phase,
        omega (arith, word32-put32 m o val),
        change (obj + off_color) (inl (omega arith)) ∙ scanned,
        change (val + off_color) (ground arith) ∙ unseen,
        refl,
      )
