-- ===== src/Model/Forget.antt =====
-- crates/gc-core/src/model.rs: `forget_unreachable` drops exactly the garbage.
use gc_united.Base.{ℕ, ◌≡◌, ◌↔◌, true, List, has}
use gc_united.Model.{Model, retain}
use gc_united.Model.Reach.{Reach}

-- What the model says of `id` after the sweep, with `ids` the reachable identities.
module _ (m : Model) (ids : List ℕ) (exact : (a : ℕ) → (has a ids ≡ true) ↔ Reach m a) where
  swept : Model
  swept = record m { objs = retain ids m.objs }
