-- ===== src/RefCount/Store.antt =====
-- crates/gc-mod02/src/lib.rs: the second half of `write_field`, the store and the new count.
use gc_united.Base.{
  ℕ, ◌+◌, ◌*◌, ◌≤◌, ◌<◌, ◌≡◌, ◌≢◌, ◌∙◌, ◌⊎◌, ap, arith, true, List, has, ok, u32_values,
}
use gc_united.Heap
use gc_united.Heap.{
  Memory, Heap, Handle, header_size, off_rc, off_size, off_nrefs, off_flags, null_addr, write,
  put32,
}
use gc_united.Heap.Words.{put32-SameOutside, IsBytes-put32, frame32, word32-same, word32-put32}
use gc_united.Heap.Views.{rc_at, slot_at, set_field-ok}
use gc_united.Space.Invariant.{IsSpace}
use gc_united.Space.Alloc.{inside_of_has}
use gc_united.Space.Poke.{IsSpace-over}
use gc_united.Space.Apart.{header-apart}
use gc_united.Space.Slots.{HasSlot, slot-apart}
use gc_united.RefCount.{RefCount, with_heap, retain}
use gc_united.RefCount.Counts.{retain-IsCounted, header_inside}

-- `gc'` is `gc` with `val` in slot `i` of `obj` and one more reference to `val`.
pub record IsStored (gc gc' : RefCount) (bs : List Handle) (obj : Handle) (i : ℕ) (val : Handle)
    : Type 0 where
  pub space : IsSpace gc'.space bs
  pub slot : slot_at gc'.space.heap.bytes obj i ≡ val
  pub count : rc_at gc'.space.heap.bytes val ≡ rc_at gc.space.heap.bytes val + 1
  pub same :
      (x : ℕ)
      → (x < obj + header_size + 4 * i) ⊎ (obj + header_size + 4 * i + 4 ≤ x)
      → (x < val + off_rc) ⊎ (val + off_rc + 4 ≤ x)
      → gc'.space.heap.bytes x ≡ gc.space.heap.bytes x
  pub rest : gc' ≡ with_heap gc gc'.space.heap

module _ (gc : RefCount) (bs : List Handle) (obj : Handle) (i : ℕ) (val : Handle)
    (is : IsSpace gc.space bs) (obj_in : has obj bs ≡ true) (val_in : has val bs ≡ true)
    (slot : HasSlot gc.space.heap.bytes obj i)
    (small : rc_at gc.space.heap.bytes val + 1 < u32_values) where
  stored : Memory
  stored = put32 gc.space.heap.bytes (obj + header_size + 4 * i) val

  pub store-IsStored :
      (hp : Heap) × (Heap.set_field gc.space.heap obj i val ≡ ok hp)
      × (gc' : RefCount) × (retain (with_heap gc hp) val ≡ ok gc')
      × IsStored gc gc' bs obj i val
  unfolding stored
  store-IsStored =
      let hp = gc.space.heap in
      let m = hp.bytes in
      let o = obj + header_size + 4 * i in
      let named = slot.named in
      let room = slot.room in
      let (_, inside, _) = inside_of_has is obj obj_in in
      let within = is.within in
      let inside' = header_inside gc bs val is val_in in
      let addressable = is.addressable in
      let change = put32-SameOutside m o val o (o + 4) (omega arith) (omega arith) in
      let is' =
        IsSpace-over obj is obj_in change (IsBytes-put32 m o val is.bytes) (omega arith)
          (omega arith) in
      let apart = slot-apart is obj val i slot obj_in val_in in
      let counted : rc_at stored val ≡ rc_at m val = frame32 change (val + off_rc) (ground arith) in
      let (gc', runs, after) =
        retain-IsCounted (with_heap gc (write hp stored)) bs val is' val_in
          (omega (arith, counted)) in
      (
        write hp stored,
        set_field-ok hp obj (omega arith) i named (omega arith) val,
        gc',
        runs,
        record {
          space = after.space;
          slot = frame32 after.same o (ground arith) ∙ omega (arith, word32-put32 m o val);
          count = after.count ∙ ap (λ n. n + 1) counted;
          same = λ x out out'. after.same x (ground arith) ∙ change x (ground arith);
          rest = after.rest;
        },
      )

-- The store counts for `val` alone.
pub IsStored-others :
    {gc gc' : RefCount} {bs : List Handle} {obj : Handle} {i : ℕ} {val : Handle}
    (is : IsSpace gc.space bs)
    → has obj bs ≡ true
    → has val bs ≡ true
    → HasSlot gc.space.heap.bytes obj i
    → IsStored gc gc' bs obj i val
    → (c : Handle) → has c bs ≡ true
    → c ≢ val
    → rc_at gc'.space.heap.bytes c ≡ rc_at gc.space.heap.bytes c
IsStored-others {gc} {gc'} {obj} {i} {val} is obj_in val_in slot after c c_in other =
    let (_, _, block) = inside_of_has is val val_in in
    let big = block.big in
    let apart = header-apart is val c val_in c_in other in
    let from_slot = slot-apart is obj c i slot obj_in c_in in
    word32-same gc.space.heap.bytes gc'.space.heap.bytes (c + off_rc)
      (λ x lo hi. after.same x (ground arith) (ground arith))
