-- ===== src/Space/Slots.antt =====
-- The slots of an object in a space, away from every header.
use gc_united.Base.{ℕ, ◌+◌, ◌*◌, ◌≤◌, ◌<◌, ◌≡◌, ◌⊎◌, inl, arith, ℕ_discrete, true, List, has}
use gc_united.Heap.{Memory, Handle, header_size, off_size, off_nrefs, off_flags}
use gc_united.Heap.Words.{SameOutside, frame16, frame32}
use gc_united.Heap.Views.{size_at, nrefs_at}
use gc_united.Space.{FreeListSpace}
use gc_united.Space.Invariant.{IsSpace}
use gc_united.Space.Apart.{header-apart}

-- The object has a slot `i`, and its block has room for its slots.
pub record HasSlot (m : Memory) (obj : Handle) (i : ℕ) : Type 0 where
  pub named : i < nrefs_at m obj
  pub room : header_size + 4 * nrefs_at m obj ≤ size_at m obj

pub HasSlot-frame :
    {m m' : Memory} {p q : ℕ} (obj : Handle) (i : ℕ)
    → SameOutside p q m m'
    → (obj + off_flags ≤ p) ⊎ (q ≤ obj)
    → HasSlot m obj i
    → HasSlot m' obj i
HasSlot-frame {m} {m'} obj i change out slot =
    let sized : size_at m' obj ≡ size_at m obj = frame32 change (obj + off_size) (ground arith) in
    let slots : nrefs_at m' obj ≡ nrefs_at m obj =
      frame16 change (obj + off_nrefs) (ground arith) in
    let named = slot.named in
    let room = slot.room in record { named = omega arith; room = omega arith }

-- A header ends before a slot of any object begins, or starts behind it.
pub slot-apart :
    {s : FreeListSpace} {bs : List Handle} (is : IsSpace s bs) (obj c : Handle) (i : ℕ)
    → HasSlot s.heap.bytes obj i
    → has obj bs ≡ true
    → has c bs ≡ true
    → (c + header_size ≤ obj + header_size + 4 * i) ⊎ (obj + header_size + 4 * i + 4 ≤ c)
slot-apart is obj c i slot member member' =
    let named = slot.named in
    let room = slot.room in
    elim (ℕ_discrete c obj) [
      | yes same ↦ inl (omega arith)
      | no other ↦ ground (arith, header-apart is obj c member member' other)
    ]
