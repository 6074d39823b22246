-- ===== src/Tests/ModelTests.antt =====
-- The independent model of crates/gc-core/src/model.rs at a cycle and a stray object.
use gc_united.Base.{ℕ, ◌≡◌, refl, List, [], ◌∷◌, Option, some, none}
use gc_united.Model
use gc_united.Model.{Model, ModelObj, reachable}
use gc_united.Model.Reach.{Reach}

abbrev object : ℕ → List (Option ℕ) → ModelObj
object id fields = record { id = id; nrefs = 1; extra = 0; size = 48; fields = fields; seq = id }

-- Objects 1 and 2 name each other, 3 names itself, and the stack names 1.
abbrev cycles : Model
cycles = record {
  objs =
      (1, object 1 (some 2 ∷ [])) ∷ (2, object 2 (some 1 ∷ [])) ∷ (3, object 3 (some 3 ∷ [])) ∷ [];
  stack = some 1 ∷ none ∷ [];
  globals = [];
  next_id = 4;
  seq = 4;
}

reachable-cycles : reachable cycles ≡ some (2 ∷ 1 ∷ [])
unfolding reachable Model.trace Model.slots Model.root_ids Model.children Model.somes Model.find
reachable-cycles = refl
