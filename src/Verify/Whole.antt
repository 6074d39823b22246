-- ===== src/Verify/Whole.antt =====
-- crates/gc-core/src/verify.rs: the whole comparison of a collector's heap with the model.
use gc_united.Base.{
  ℕ, suc, ◌+◌, ◌*◌, min, Bool, true, false, if◌then◌else◌, ltb, ◌==◌, List, [], ◌∷◌, length, sort,
  Option, none, some, Exec, ok, panic, ◌>>=◌,
}
use gc_united.Heap.{Handle}
use gc_united.Roots
use gc_united.Model
use gc_united.Model.{Model}
use gc_united.Collector.{Collector}
use gc_united.Verify.Reports.{
  Violation, duplicated_identity, unreachable, root_stack_depth, accounting, max_paths, Report,
  empty_report, note, is_full, Route, not_computed,
}
use gc_united.Verify.Paths.{path_to}
use gc_united.Verify.Queue.{Walk, check_slots, check_globals, walk_queue}

-- `Vec::dedup`
unfoldable pub dedup : List ℕ → List ℕ
dedup [] = []
dedup (x ∷ xs) = elim xs [ [] ↦ x ∷ [] | y ∷ _ ↦ (if x == y then dedup xs else x ∷ dedup xs) ]

unfoldable pub check_duplicates : Report → List (ℕ × List Handle) → Report
unfolding note sort dedup
check_duplicates r [] = r
check_duplicates r ((id, at) ∷ rest) =
    let distinct = dedup (sort at) in
    let next = if ltb 1 (length distinct) then note r (duplicated_identity id distinct) else r in
    check_duplicates next rest

-- Whether some address carries the identity.
unfoldable pub was_found : ℕ → List (ℕ × List Handle) → Bool
was_found id [] = false
was_found id ((j, _) ∷ rest) = if j == id then true else was_found id rest

-- The path that goes with a lost object, once `computed` others have one.
unfoldable pub lost_path : Model → ℕ → ℕ → Option (Route × ℕ)
lost_path m computed id =
    if ltb computed max_paths
    then elim (path_to m id) [ none ↦ none | some p ↦ some (p, suc computed) ]
    else some (not_computed, computed)

-- The loop over what the model says is reachable; `none` means that a search ran out of fuel.
unfoldable pub check_lost : Model → List (ℕ × List Handle) → Report → ℕ → List ℕ → Option Report
unfolding was_found lost_path is_full note
check_lost m id_at r computed [] = some r
check_lost m id_at r computed (id ∷ ids) =
    if was_found id id_at
    then check_lost m id_at r computed ids
    else if is_full r
    then check_lost m id_at (record r { omitted = suc r.omitted }) computed ids
    else elim (lost_path m computed id) [
      | none ↦ none
      | some (p, computed') ↦ check_lost m id_at (note r (unreachable id p)) computed' ids
    ]

-- What follows the walk.
unfoldable pub conclude : Model → Walk → Option Report
unfolding check_duplicates check_lost
conclude m w = elim (Model.reachable m) [
  | none ↦ none
  | some live ↦ elim (check_lost m w.id_at (check_duplicates w.report w.id_at) 0 (sort live)) [
    | none ↦ none
    | some r ↦ some (record r { visited = length w.id_at })
  ]
]

module _ {C : Type 0} ⦃c : Collector C⦄ where
  -- The depths of the two stacks.
  unfoldable pub root_report : C → Model → Report
  unfolding note
  root_report gc m =
      let depth = Roots.depth (c.roots gc) in
      let mirror = Model.root_depth m in
      if depth == mirror then empty_report else note empty_report (root_stack_depth depth mirror)

  -- What precedes the walk: the depths, the root slots and the globals.
  unfoldable pub check_roots : C → Model → Exec Walk
  unfolding root_report check_slots check_globals
  check_roots gc m = do
    let r = c.roots gc
    let depth = min (Roots.depth r) (Model.root_depth m)
    let start : Walk = record { report = root_report gc m; id_at = []; visited = []; queue = [] }
    w ← check_slots r m start 0 depth
    ok (check_globals r w m.globals)

  -- An object is visited once for each address, and has fewer slots than the heap has bytes, so that
  -- the fuel is enough for the loop. `none` means that it was not.
  unfoldable pub verify : C → Model → Exec (Option Report)
  unfolding check_roots walk_queue conclude
  verify gc m = do
    w ← check_roots gc m
    let len = (c.heap gc).len
    found ← walk_queue (length w.queue + len * len) gc m w
    ok (elim found [ none ↦ none | some w' ↦ conclude m w' ])

  -- `none` is a run without a violation.
  unfoldable pub check_accounting : C → Model → Exec (Option Violation)
  check_accounting gc m = do
    used ← c.used_bytes gc
    elim (Model.reachable_bytes m) [
      | none ↦ panic
      | some sum ↦ (do
        reachable ← sum
        ok (if used == reachable then none else some (accounting used reachable)))
    ]
