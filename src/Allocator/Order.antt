-- ===== src/Allocator/Order.antt =====
-- crates/gc-mod01/src/lib.rs: the address order of the free list.
use gc_united.Base.{ℕ, ◌+◌, ◌≡◌, refl, arith, true, false, ◌==◌, List, [], ◌∷◌, has, count, one_if}
use gc_united.Heap.{Handle}
use gc_united.Allocator.{insert_free, in_order}

pub count-insert_free :
    (a h : ℕ) (bs : List Handle) → count a (insert_free h bs) ≡ count a bs + one_if (a == h)
unfolding insert_free
count-insert_free a h [] = omega arith
count-insert_free a h (b ∷ bs) = ground (arith, count-insert_free a h bs)

-- A list in order stays so when a number that is not in it goes to its place.
pub in_order-insert_free :
    (h : ℕ) (bs : List Handle)
    → has h bs ≡ false
    → in_order bs ≡ true
    → in_order (insert_free h bs) ≡ true
unfolding in_order insert_free
in_order-insert_free h [] absent order = refl
in_order-insert_free h (x ∷ []) absent order = ground arith
in_order-insert_free h (x ∷ y ∷ ys) absent order = ground (arith, in_order-insert_free h (y ∷ ys))
