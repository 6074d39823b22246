-- ===== src/CycleCollector/Write.antt =====
-- crates/gc-mod03/src/lib.rs: the counts after `write_field`.
use gc_united.Base.{
  ℕ, ◌+◌, ◌-◌, ◌*◌, ◌≤◌, ◌<◌, ◌≡◌, ◌≢◌, refl, sym, ◌∙◌, ap, ◌⊎◌, inl, arith, true, false, ◌==◌,
  one_if, if◌then◌else◌, ℕ_discrete, List, [], has, ok, u32_values,
}
use gc_united.Heap
use gc_united.Heap.{
  Heap, Handle, header_size, off_rc, off_flags, flag_free, has_bit, null_addr, write, put32,
}
use gc_united.Heap.Words.{SameOutside, frame32, put32-SameOutside, IsBytes-put32, word32-put32}
use gc_united.Heap.Views.{rc_at, slot_at, field-ok, set_field-ok}
use gc_united.Heap.Chain.{free_at}
use gc_united.Space.{FreeListSpace}
use gc_united.Space.Invariant.{IsSpace}
use gc_united.Space.Alloc.{inside_of_has}
use gc_united.Space.Apart.{header-apart}
use gc_united.Space.Poke.{over, IsSpace-over}
use gc_united.Space.Slots.{HasSlot, HasSlot-frame, slot-apart}
use gc_united.CycleCollector.{CycleCollector, with_heap, write_field}
use gc_united.CycleCollector.Touch.{IsTouched, header_inside}
use gc_united.CycleCollector.Counts.{retain-IsRecounted, release-IsRecounted}

-- A write to the header of one block, seen from the blocks.
module _ {s s' : FreeListSpace} {bs : List Handle} (is : IsSpace s bs) (h n : ℕ)
    (member : has h bs ≡ true) (t : IsTouched s s' bs h n) where
  header_away :
      (c : Handle) → has c bs ≡ true → c ≢ h → (c + header_size ≤ h) ⊎ (h + header_size ≤ c)
  header_away c c_in other =
      let (_, _, block) = inside_of_has is h member in
      let big = block.big in ground (arith, header-apart is h c member c_in other)

  IsTouched-rc :
      (c : Handle)
      → has c bs ≡ true
      → rc_at s'.heap.bytes c ≡ (if c == h then n else rc_at s.heap.bytes c)
  IsTouched-rc c c_in = elim (ℕ_discrete c h) [
    | yes same ↦
        let here : (c == h) ≡ true = ground arith in
        rw here (ap (rc_at s'.heap.bytes) same ∙ t.count)
    | no other ↦
        let there : (c == h) ≡ false = ground arith in
        rw there (frame32 t.same (c + off_rc) (ground (arith, header_away c c_in other)))
  ]

  IsTouched-free : (c : Handle) → has c bs ≡ true → free_at s'.heap.bytes c ≡ free_at s.heap.bytes c
  IsTouched-free c c_in = elim (ℕ_discrete c h) [
    | yes same ↦ ap (free_at s'.heap.bytes) same ∙ t.freed ∙ ap (free_at s.heap.bytes) (sym same)
    | no other ↦
        ap (λ f. has_bit f flag_free)
          (t.same (c + off_flags) (ground (arith, header_away c c_in other)))
  ]

  module _ (obj : Handle) (i : ℕ) (obj_in : has obj bs ≡ true)
      (slot : HasSlot s.heap.bytes obj i) where
    IsTouched-slot : slot_at s'.heap.bytes obj i ≡ slot_at s.heap.bytes obj i
    IsTouched-slot =
        frame32 t.same (obj + header_size + 4 * i)
          (ground (arith, slot-apart is obj h i slot obj_in member))

    HasSlot-touched : HasSlot s'.heap.bytes obj i
    HasSlot-touched =
        HasSlot-frame obj i t.same
          (elim (ℕ_discrete obj h) [
            | yes same ↦ inl (omega arith)
            | no other ↦ ground (arith, header_away obj obj_in other)
          ])
          slot

-- A store into a slot, seen from the blocks.
module _ {s : FreeListSpace} {bs : List Handle} (is : IsSpace s bs) (obj : Handle) (i : ℕ)
    (val : Handle) (obj_in : has obj bs ≡ true) (slot : HasSlot s.heap.bytes obj i) where
  abbrev pub stored : FreeListSpace
  stored = over s (put32 s.heap.bytes (obj + header_size + 4 * i) val)

  stored_change :
      SameOutside
        (obj + header_size + 4 * i)
        (obj + header_size + 4 * i + 4)
        s.heap.bytes
        stored.heap.bytes
  stored_change =
      put32-SameOutside s.heap.bytes (obj + header_size + 4 * i) val _ _ (omega arith) (omega arith)

  stored-IsSpace : IsSpace stored bs
  stored-IsSpace =
      let named = slot.named in
      let room = slot.room in
      IsSpace-over obj is obj_in stored_change (IsBytes-put32 _ _ _ is.bytes) (omega arith)
        (omega arith)

  stored-rc : (c : Handle) → has c bs ≡ true → rc_at stored.heap.bytes c ≡ rc_at s.heap.bytes c
  stored-rc c c_in =
      frame32 stored_change (c + off_rc) (ground (arith, slot-apart is obj c i slot obj_in c_in))

  stored-free :
      (c : Handle) → has c bs ≡ true → free_at stored.heap.bytes c ≡ free_at s.heap.bytes c
  stored-free c c_in =
      ap (λ f. has_bit f flag_free)
        (stored_change (c + off_flags) (ground (arith, slot-apart is obj c i slot obj_in c_in)))

  stored-slot : HasSlot stored.heap.bytes obj i
  stored-slot = HasSlot-frame obj i stored_change (inl (omega arith)) slot

module _ (gc : CycleCollector) (bs : List Handle) (obj : Handle) (i : ℕ) (is : IsSpace gc.space bs)
    (obj_in : has obj bs ≡ true) (slot : HasSlot gc.space.heap.bytes obj i)
    (idle : gc.pending ≡ []) where
  -- The space is well formed and nothing is pending. The slot holds the block `old`, which keeps a reference
  -- once the new one to the block `val` is counted, and the count of `val` is not at its end. Then
  -- `write_field` returns a well-formed space of the same blocks, each as free or live as before, with `val` in
  -- the slot. Of every block, its references and one more where it is `old` are as many as its
  -- former ones and one more where it is `val`; so a store of what the slot already holds keeps
  -- every count, a count of one included.
  pub write_field-balances :
      (old val : Handle)
      → slot_at gc.space.heap.bytes obj i ≡ old
      → has old bs ≡ true
      → has val bs ≡ true
      → 1 < rc_at gc.space.heap.bytes old + one_if (old == val)
      → rc_at gc.space.heap.bytes val + 1 < u32_values
      → (gc' : CycleCollector) × (write_field gc obj i val ≡ ok gc')
        × IsSpace gc'.space bs
        × (slot_at gc'.space.heap.bytes obj i ≡ val)
        × ((c : Handle)
            → has c bs ≡ true
            → (free_at gc'.space.heap.bytes c ≡ free_at gc.space.heap.bytes c)
              × (rc_at gc'.space.heap.bytes c + one_if (c == old)
                  ≡ rc_at gc.space.heap.bytes c + one_if (c == val)))
  unfolding write_field
  write_field-balances old val holds old_in val_in many small =
      let m = gc.space.heap.bytes in
      let (gc1, retains, one) = retain-IsRecounted gc bs val is val_in small in
      let t1 = one.touched in
      let is1 = t1.space in
      let slot1 = HasSlot-touched is val _ val_in t1 obj i obj_in slot in
      let kept1 = IsTouched-slot is val _ val_in t1 obj i obj_in slot in
      let named = slot1.named in
      let room = slot1.room in
      let (_, inside, _) = inside_of_has is1 obj obj_in in
      let within = is1.within in
      let reads : Heap.field gc1.space.heap obj i ≡ ok old =
        field-ok gc1.space.heap obj (omega arith) i named (omega arith) ∙ ap ok (kept1 ∙ holds) in
      let sets = set_field-ok gc1.space.heap obj (omega arith) i named (omega arith) val in
      let s2 = stored is1 obj i val obj_in slot1 in
      let is2 = stored-IsSpace is1 obj i val obj_in slot1 in
      let gc2 = with_heap gc1 s2.heap in
      let rc2 : (c : Handle)
          → has c bs ≡ true
          → rc_at s2.heap.bytes c ≡ rc_at m c + one_if (c == val) =
        λ c c_in.
          stored-rc is1 obj i val obj_in slot1 c c_in
          ∙ ground (arith, IsTouched-rc is val _ val_in t1 c c_in) in
      let (gc3, releases, two) =
        release-IsRecounted gc2 bs old is2 old_in (ap (λ g. g.pending) one.rest ∙ idle)
          (omega (arith, rc2 old old_in)) in
      let t3 = two.touched in
      let slot2 = stored-slot is1 obj i val obj_in slot1 in
      (
        gc3,
        rw (retains, reads, sets) releases,
        t3.space,
        IsTouched-slot is2 old _ old_in t3 obj i obj_in slot2
            ∙ omega (
              arith,
              word32-put32 gc1.space.heap.bytes (obj + header_size + 4 * i) val,
              header_inside is val val_in,
              is.addressable,
            ),
        λ c c_in. (
          IsTouched-free is2 old _ old_in t3 c c_in
              ∙ stored-free is1 obj i val obj_in slot1 c c_in
              ∙ IsTouched-free is val _ val_in t1 c c_in,
          elim (ℕ_discrete c old) [
            | yes same ↦
                let here : (c == old) ≡ true = ground arith in
                let now : rc_at gc3.space.heap.bytes c ≡ rc_at s2.heap.bytes old - 1 =
                  ap (rc_at gc3.space.heap.bytes) same ∙ t3.count in
                let before : rc_at s2.heap.bytes c ≡ rc_at s2.heap.bytes old =
                  ap (rc_at s2.heap.bytes) same in
                let same_val : one_if (c == val) ≡ one_if (old == val) =
                  ap (λ x. one_if (x == val)) same in
                rw here (omega (arith, now, before, rc2 c c_in, rc2 old old_in, many, same_val))
            | no other ↦
                let there : (c == old) ≡ false = ground arith in
                let now : rc_at gc3.space.heap.bytes c ≡ rc_at s2.heap.bytes c =
                  IsTouched-rc is2 old _ old_in t3 c c_in ∙ rw there refl in
                rw there (omega (arith, now, rc2 c c_in))
          ],
        ),
      )
