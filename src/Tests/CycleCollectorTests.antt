-- ===== src/Tests/CycleCollectorTests.antt =====
-- The cycle collector of crates/gc-mod03/src/lib.rs at a heap of three objects.
use gc_united.Base.{◌+◌, ◌≡◌, refl, arith, true, ok, [], has, one_if, ◌==◌}
use gc_united.Heap.{Handle}
use gc_united.Heap.Views.{rc_at, slot_at}
use gc_united.Heap.Chain.{free_at}
use gc_united.Roots
use gc_united.Space.Invariant.{IsSpace}
use gc_united.Stats.{fresh}
use gc_united.CycleCollector.{CycleCollector, write_field}
use gc_united.CycleCollector.Write.{write_field-balances}
use gc_united.Tests.RefCountTests.{trio, trio_bytes, blocks, trio-IsSpace, trio-slot, holds, one}

abbrev counted : CycleCollector
counted = record {
  space = (trio 1).space;
  roots = Roots.new;
  stats = fresh;
  pending = [];
  candidates = [];
  cycles_collected = 0;
}

-- The slot at 0 is overwritten with the object that it holds, whose one reference it is.
write_field-balances_example :
    (gc : CycleCollector) × (write_field counted 0 0 32 ≡ ok gc)
    × IsSpace gc.space blocks
    × (slot_at gc.space.heap.bytes 0 0 ≡ 32)
    × ((c : Handle)
        → has c blocks ≡ true
        → (free_at gc.space.heap.bytes c ≡ free_at (trio_bytes 1) c)
          × (rc_at gc.space.heap.bytes c + one_if (c == 32)
              ≡ rc_at (trio_bytes 1) c + one_if (c == 32)))
write_field-balances_example =
    write_field-balances counted blocks 0 0 (trio-IsSpace 1) refl trio-slot refl 32 32 holds refl
      refl (omega (arith, one)) (omega (arith, one))
