-- ===== src/Model/Reach.antt =====
-- crates/gc-core/src/model.rs: `reachable` finds exactly what a chain of references leads to.
use mathlib.Core.List
use gc_united.Base.{ℕ, ◌+◌, ◌≤◌, ◌≡◌, true, ◌||◌, if◌then◌else◌, List, [], ◌∷◌, length, has, count}
use gc_united.Model.{Model, Objects, children, root_ids}

-- A root, or what a field of something reachable names.
pub data Reach (m : Model) : ℕ → Type 0 where
  root : {a : ℕ} → has a (root_ids m) ≡ true → Reach m a
  edge : {a b : ℕ} → Reach m a → has b (children m.objs a) ≡ true → Reach m b

-- The slots of the objects that are not yet seen: what the loop may still push.
abbrev unseen : Objects → List ℕ → ℕ
unseen [] seen = 0
unseen ((j, o) ∷ os) seen = (if has j seen then 0 else length o.fields) + unseen os seen

module _ (m : Model) where
  -- Between two rounds: what was seen or is pending is reachable, the roots are among it, and the
  -- children of what was seen too. Nothing was seen twice.
  record Inv (seen work : List ℕ) : Type 0 where
    sound : (a : ℕ) → has a seen ≡ true → Reach m a
    pending : (a : ℕ) → has a work ≡ true → Reach m a
    roots : (a : ℕ) → has a (root_ids m) ≡ true → (has a seen || has a work) ≡ true
    closed :
        (a b : ℕ)
        → has a seen ≡ true
        → has b (children m.objs a) ≡ true
        → (has b seen || has b work) ≡ true
    once : (a : ℕ) → count a seen ≤ 1
