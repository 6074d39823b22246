-- ===== src/Mutator.antt =====
-- crates/gc-core/src/mutator.rs: the program that drives a collector and the model side by side. A
-- slot is an index into the shadow stack. What panics with a message is `panic`.
pub mod Depths
pub mod Steps
pub mod Lockstep
use Prim.Native.String.{String}
use mathlib.Core.Option
use gc_united.Base.{
  ℕ, Bool, true, false, if◌then◌else◌, List, [], ◌∷◌, Option, none, some, Exec, ok, panic, assert,
  ◌>>=◌, ◌>>◌, add32, mul32,
}
use gc_united.Heap
use gc_united.Heap.{Heap, Handle, null, is_null}
use gc_united.Roots
use gc_united.Roots.{Roots}
use gc_united.Stats.{GcStats, allocated, out_of_memory}
use gc_united.Model
use gc_united.Model.{Model, id_off, magic, magic_off, stamp_bytes}
use gc_united.Collector.{Collector, read_field}
use gc_united.Verify.{is_ok, verify, check_accounting}

pub record Mutator (C : Type 0) : Type 0 where
  pub gc : C
  pub model : Model

-- `Result<RootSlot, GcError>`
pub data SlotResult : Type 0 where
  rooted : ℕ → SlotResult
  failed : (requested used capacity : ℕ) → SlotResult

-- `Option::expect`
unfoldable pub expect : Option ℕ → Exec ℕ
expect none = panic
expect (some id) = ok id

unfoldable pub new : {C : Type 0} → C → Mutator C
new gc = record { gc = gc; model = Model.new }

-- The binding of a global in the model.
unfoldable pub rebind : Model → String → Option ℕ → Model
rebind m name none = Model.remove_global m name
rebind m name (some known) = Model.set_global m name known

-- `STAMP_BYTES + 8 * index`
unfoldable pub word_offset : ℕ → Exec ℕ
word_offset index = do n ← mul32 8 index; add32 stamp_bytes n

module _ {C : Type 0} ⦃c : Collector C⦄ where
  unfoldable pub handle : Mutator C → ℕ → Exec Handle
  handle mu slot = Roots.get (c.roots mu.gc) slot

  unfoldable pub id : Mutator C → ℕ → Exec (Option ℕ)
  id mu slot = Model.root mu.model slot

  unfoldable pub is_null_slot : Mutator C → ℕ → Exec Bool
  is_null_slot mu slot = do
    found ← Model.root mu.model slot
    ok (elim found [ none ↦ true | some _ ↦ false ])

  unfoldable pub root_depth : Mutator C → ℕ
  root_depth mu = Roots.depth (c.roots mu.gc)

  -- The hooks that run for handles that are not null.
  unfoldable pub pushed : C → Handle → Exec C
  pushed gc h = if is_null h then ok gc else c.on_root_pushed gc h

  unfoldable pub popped : C → Handle → Exec C
  popped gc h = if is_null h then ok gc else c.on_root_popped gc h

  -- `h` on the shadow stack and `id` on the mirror of the model.
  unfoldable pub push_both : Mutator C → Handle → Option ℕ → Exec (Mutator C × ℕ)
  unfolding pushed
  push_both mu h id = do
    let (roots, slot) = Roots.push (c.roots mu.gc) h
    gc ← pushed (c.set_roots mu.gc roots) h
    ok (record { gc = gc; model = Model.push_root mu.model id }, slot)

  -- The stamp of a new object.
  unfoldable pub stamp : C → Handle → ℕ → Exec C
  stamp gc h id = do
    hp ← Heap.set_data_u64 (c.heap gc) h id_off id
    hp ← Heap.set_data_u32 hp h magic_off magic
    ok (c.set_heap gc hp)

  -- A new object is stamped and rooted.
  unfoldable pub enroll : C → Model → Handle → ℕ → ℕ → Exec (Mutator C × ℕ)
  unfolding stamp
  enroll gc m h refs extra = do
    (m, id) ← Model.alloc m refs extra
    gc ← stamp gc h id
    let (roots, slot) = Roots.push (c.roots gc) h
    gc ← c.on_root_pushed (c.set_roots gc roots) h
    ok (record { gc = gc; model = Model.push_root m (some id) }, slot)

  unfoldable pub try_alloc : Mutator C → ℕ → ℕ → Exec (Mutator C × SlotResult)
  unfolding enroll
  try_alloc mu refs extra = do
    ndata ← add32 stamp_bytes extra
    (gc, answer) ← c.alloc mu.gc refs ndata
    elim answer [
      | out_of_memory requested used capacity ↦
          ok (record mu { gc = gc }, failed requested used capacity)
      | allocated h ↦ (do (mu', slot) ← enroll gc mu.model h refs extra; ok (mu', rooted slot))
    ]

  unfoldable pub alloc : Mutator C → ℕ → ℕ → Exec (Mutator C × ℕ)
  unfolding try_alloc
  alloc mu refs extra = do
    (mu', answer) ← try_alloc mu refs extra
    elim answer [ rooted slot ↦ ok (mu', slot) | failed _ _ _ ↦ panic ]

  unfoldable pub store : Mutator C → ℕ → ℕ → ℕ → Exec (Mutator C)
  unfolding handle id expect
  store mu parent i child = do
    p ← handle mu parent
    h ← handle mu child
    gc ← c.write_field mu.gc p i h
    pid ← id mu parent
    cid ← id mu child
    known ← expect pid
    m ← Model.store mu.model known i cid
    ok (record { gc = gc; model = m })

  unfoldable pub store_null : Mutator C → ℕ → ℕ → Exec (Mutator C)
  unfolding handle id expect
  store_null mu parent i = do
    p ← handle mu parent
    gc ← c.write_field mu.gc p i null
    pid ← id mu parent
    known ← expect pid
    m ← Model.store mu.model known i none
    ok (record { gc = gc; model = m })

  unfoldable pub load : Mutator C → ℕ → ℕ → Exec (Mutator C × ℕ)
  unfolding handle id expect push_both
  load mu parent i = do
    p ← handle mu parent
    child ← read_field mu.gc p i
    pid ← id mu parent
    known ← expect pid
    cid ← Model.field mu.model known i
    push_both mu child cid

  unfoldable pub dup : Mutator C → ℕ → Exec (Mutator C × ℕ)
  unfolding handle id push_both
  dup mu slot = do h ← handle mu slot; found ← id mu slot; push_both mu h found

  unfoldable pub assign : Mutator C → ℕ → ℕ → Exec (Mutator C)
  unfolding handle id pushed popped
  assign mu dst src = do
    new ← handle mu src
    old ← handle mu dst
    gc ← pushed mu.gc new
    roots ← Roots.assign (c.roots gc) dst new
    gc ← popped (c.set_roots gc roots) old
    found ← id mu src
    m ← Model.set_root mu.model dst found
    ok (record { gc = gc; model = m })

  unfoldable pub pop_all : C → List Handle → Exec C
  unfolding popped
  pop_all gc [] = ok gc
  pop_all gc (h ∷ hs) = do gc ← popped gc h; pop_all gc hs

  unfoldable pub unwind : Mutator C → ℕ → Exec (Mutator C)
  unfolding pop_all
  unwind mu depth = do
    (roots, dropped) ← Roots.unwind (c.roots mu.gc) depth
    gc ← pop_all (c.set_roots mu.gc roots) dropped
    ok (record { gc = gc; model = Model.unwind mu.model depth })

  unfoldable pub set_global : Mutator C → String → ℕ → Exec (Mutator C)
  unfolding handle id rebind
  set_global mu name slot = do
    h ← handle mu slot
    let (roots, old) = Roots.set_global (c.roots mu.gc) name h
    gc ← c.on_global_changed (c.set_roots mu.gc roots) (Option.get_or old null) h
    found ← id mu slot
    ok (record { gc = gc; model = rebind mu.model name found })

  unfoldable pub global : Mutator C → String → Exec (Mutator C × ℕ)
  unfolding push_both
  global mu name = push_both mu (Roots.global (c.roots mu.gc) name) (Model.global mu.model name)

  unfoldable pub clear_global : Mutator C → String → Exec (Mutator C)
  clear_global mu name = do
    let (roots, old) = Roots.remove_global (c.roots mu.gc) name
    gc ← c.on_global_changed (c.set_roots mu.gc roots) (Option.get_or old null) null
    ok (record { gc = gc; model = Model.remove_global mu.model name })

  unfoldable pub write_u64 : Mutator C → ℕ → ℕ → ℕ → Exec (Mutator C)
  unfolding handle word_offset
  write_u64 mu slot index v = do
    h ← handle mu slot
    off ← word_offset index
    hp ← Heap.set_data_u64 (c.heap mu.gc) h off v
    ok (record mu { gc = c.set_heap mu.gc hp })

  unfoldable pub read_u64 : Mutator C → ℕ → ℕ → Exec ℕ
  unfolding handle word_offset
  read_u64 mu slot index = do
    h ← handle mu slot
    off ← word_offset index
    Heap.data_u64 (c.heap mu.gc) h off

  unfoldable pub collect : Mutator C → Exec (Mutator C)
  collect mu = do gc ← c.collect mu.gc; ok (record mu { gc = gc })

  unfoldable pub stats : Mutator C → GcStats
  stats mu = c.stats mu.gc

  unfoldable pub used_bytes : Mutator C → Exec ℕ
  used_bytes mu = c.used_bytes mu.gc

  unfoldable pub forget_unreachable : Mutator C → Option (Mutator C)
  forget_unreachable mu =
      Option.map (λ m. record mu { model = m }) (Model.forget_unreachable mu.model)

  unfoldable pub assert_consistent : Mutator C → Exec (Option (Unit {0}))
  assert_consistent mu = do
    found ← verify mu.gc mu.model
    elim found [ none ↦ ok none | some r ↦ (do assert (is_ok r); ok (some tt)) ]

  unfoldable pub assert_fully_reclaimed : Mutator C → Exec (Option (Unit {0}))
  unfolding assert_consistent
  assert_fully_reclaimed mu = do
    found ← assert_consistent mu
    elim found [
      | none ↦ ok none
      | some _ ↦ (do
        wrong ← check_accounting mu.gc mu.model
        elim wrong [ none ↦ ok (some tt) | some _ ↦ panic ])
    ]
