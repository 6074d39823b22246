-- ===== src/Collector.antt =====
-- crates/gc-core/src/collector.rs: the interface that every collector implements. `heap_mut` and
-- `roots_mut` are the setters; `name` is text and left out.
use gc_united.Base.{ℕ, Exec}
use gc_united.Heap
use gc_united.Heap.{Heap, Handle}
use gc_united.Roots.{Roots}
use gc_united.Stats.{GcStats, GcResult}

pub record Collector (C : Type 0) : Type 0 where
  pub heap : C → Heap
  pub set_heap : C → Heap → C
  pub roots : C → Roots
  pub set_roots : C → Roots → C
  pub stats : C → GcStats
  pub used_bytes : C → Exec ℕ
  pub alloc : C → ℕ → ℕ → Exec (C × GcResult)
  pub write_field : C → Handle → ℕ → Handle → Exec C
  pub collect : C → Exec C
  pub on_root_pushed : C → Handle → Exec C
  pub on_root_popped : C → Handle → Exec C
  pub on_global_changed : C → Handle → Handle → Exec C

module _ {C : Type 0} ⦃c : Collector C⦄ where
  -- The default of the trait, which no collector of the repository replaces.
  unfoldable pub read_field : C → Handle → ℕ → Exec Handle
  read_field gc obj i = Heap.field (c.heap gc) obj i
