-- ===== src/RefCount/Write.antt =====
-- crates/gc-mod02/src/lib.rs: the counts after `write_field`.
use gc_united.Base.{
  ℕ, ◌+◌, ◌≤◌, ◌<◌, ◌≡◌, ◌≢◌, sym, ◌∙◌, ◌⊎◌, inl, ap, arith, true, false, List, [], has, ok,
  u32_values, u64_values, ℕ_discrete,
}
use gc_united.Heap.{Handle, off_rc, off_flags, has_bit, flag_free}
use gc_united.Heap.Words.{frame32}
use gc_united.Heap.Views.{size_at, rc_at, slot_at, field-ok}
use gc_united.Heap.Chain.{free_at}
use gc_united.Space.Invariant.{IsSpace}
use gc_united.Space.Alloc.{inside_of_has}
use gc_united.Space.Apart.{header-apart}
use gc_united.RefCount.{RefCount, release, write_field}
use gc_united.RefCount.Counts.{release-IsCounted}
use gc_united.RefCount.Last.{release-IsDropped}
use gc_united.Space.Slots.{HasSlot, HasSlot-frame, slot-apart}
use gc_united.RefCount.Store.{IsStored, IsStored-others, store-IsStored}

-- What `write_field` does once the release has run.
module _ (gc gc1 : RefCount) (bs : List Handle) (obj : Handle) (i : ℕ) (val : Handle)
    (is : IsSpace gc.space bs) (is1 : IsSpace gc1.space bs) (obj_in : has obj bs ≡ true)
    (val_in : has val bs ≡ true) (slot : HasSlot gc.space.heap.bytes obj i)
    (slot1 : HasSlot gc1.space.heap.bytes obj i)
    (small : rc_at gc1.space.heap.bytes val + 1 < u32_values) where
  write_field_after :
      release gc (slot_at gc.space.heap.bytes obj i) ≡ ok gc1
      → (gc' : RefCount) × (write_field gc obj i val ≡ ok gc') × IsStored gc1 gc' bs obj i val
  unfolding write_field
  write_field_after runs =
      let named = slot.named in
      let room = slot.room in
      let (_, inside, _) = inside_of_has is obj obj_in in
      let within = is.within in
      let (hp, sets, gc', retains, after) =
        store-IsStored gc1 bs obj i val is1 obj_in val_in slot1 small in
      (
        gc',
        rw (field-ok gc.space.heap obj (omega arith) i named (omega arith), runs, sets, retains),
        after,
      )

module _ (gc : RefCount) (bs : List Handle) (obj : Handle) (i : ℕ) (is : IsSpace gc.space bs)
    (obj_in : has obj bs ≡ true) (slot : HasSlot gc.space.heap.bytes obj i)
    (idle : gc.pending ≡ []) where
  -- The space is well formed and nothing is pending. The slot holds `old`, which is referred to
  -- elsewhere, and `val` is another object, whose count is not at its end. Then
  -- `write_field` returns, with `val` in the slot, one reference less to `old`, one more to `val`,
  -- as many as before to every other object, and the same blocks in a well-formed space.
  pub write_field-counts :
      (old val : Handle)
      → slot_at gc.space.heap.bytes obj i ≡ old
      → has old bs ≡ true
      → has val bs ≡ true
      → old ≢ val
      → 1 < rc_at gc.space.heap.bytes old
      → rc_at gc.space.heap.bytes val + 1 < u32_values
      → (gc' : RefCount) × (write_field gc obj i val ≡ ok gc')
        × IsSpace gc'.space bs
        × (slot_at gc'.space.heap.bytes obj i ≡ val)
        × (rc_at gc'.space.heap.bytes old + 1 ≡ rc_at gc.space.heap.bytes old)
        × (rc_at gc'.space.heap.bytes val ≡ rc_at gc.space.heap.bytes val + 1)
        × ((c : Handle)
            → has c bs ≡ true
            → c ≢ old
            → c ≢ val
            → rc_at gc'.space.heap.bytes c ≡ rc_at gc.space.heap.bytes c)
  write_field-counts old val holds old_in val_in differ many small =
      let m = gc.space.heap.bytes in
      let (gc1, released, one) = release-IsCounted gc bs old is old_in idle many in
      let m1 = gc1.space.heap.bytes in
      let outside : (c : Handle) → has c bs ≡ true → c ≢ old → (c + 16 ≤ old) ⊎ (old + 16 ≤ c) =
        λ c c_in other.
          let (_, _, block) = inside_of_has is old old_in in
          let big = block.big in ground (arith, header-apart is old c old_in c_in other) in
      let others : (c : Handle) → has c bs ≡ true → c ≢ old → rc_at m1 c ≡ rc_at m c =
        λ c c_in other. frame32 one.same (c + off_rc) (ground (arith, outside c c_in other)) in
      let slot1 : HasSlot m1 obj i =
        HasSlot-frame obj i one.same
          (elim (ℕ_discrete obj old) [
            | yes same ↦ inl (omega arith)
            | no other ↦ ground (arith, outside obj obj_in other)
          ])
          slot in
      let val_same = others val val_in (λ e. differ (sym e)) in
      let (gc', runs, after) =
        write_field_after gc gc1 bs obj i val is one.space obj_in val_in slot slot1 (omega arith)
          (rw holds released) in
      let counts = IsStored-others one.space obj_in val_in slot1 after in
      (
        gc',
        runs,
        after.space,
        after.slot,
        omega (arith, counts old old_in differ, one.count),
        omega (arith, after.count),
        λ c c_in a b. counts c c_in b ∙ others c c_in a,
      )

  -- The space is well formed, nothing is pending and the counters have room. The slot holds the last
  -- reference to another, live object `val`, and the same `val` is stored again. Then `write_field` returns with `val` given back to the space, while the slot still names
  -- it and its count is one.
  pub write_field-frees_stored :
      (val : Handle)
      → slot_at gc.space.heap.bytes obj i ≡ val
      → has val bs ≡ true
      → obj ≢ val
      → free_at gc.space.heap.bytes val ≡ false
      → rc_at gc.space.heap.bytes val ≡ 1
      → gc.stats.objects_freed + 1 < u64_values
      → gc.stats.bytes_freed + size_at gc.space.heap.bytes val < u64_values
      → (gc' : RefCount) × (write_field gc obj i val ≡ ok gc')
        × IsSpace gc'.space bs
        × (free_at gc'.space.heap.bytes val ≡ true)
        × (slot_at gc'.space.heap.bytes obj i ≡ val)
        × (rc_at gc'.space.heap.bytes val ≡ 1)
  write_field-frees_stored val holds val_in other live last objects_fit bytes_fit =
      let m = gc.space.heap.bytes in
      let (gc1, released, drop) =
        release-IsDropped gc bs val is val_in live last idle objects_fit bytes_fit in
      let m1 = gc1.space.heap.bytes in
      let slot1 : HasSlot m1 obj i =
        HasSlot-frame obj i drop.same (ground (arith, header-apart is val obj val_in obj_in other))
          slot in
      let zeroed = drop.zeroed in
      let (gc', runs, after) =
        write_field_after gc gc1 bs obj i val is drop.space obj_in val_in slot slot1 (omega arith)
          (rw holds released) in
      let from_slot = slot-apart drop.space obj val i slot1 obj_in val_in in
      let flags = after.same (val + off_flags) (ground arith) (inl (omega arith)) in
      (
        gc',
        runs,
        after.space,
        ap (λ f. has_bit f flag_free) flags ∙ drop.freed,
        after.slot,
        omega (arith, after.count),
      )
