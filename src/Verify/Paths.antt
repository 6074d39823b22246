-- ===== src/Verify/Paths.antt =====
-- crates/gc-core/src/verify.rs: `path_to`, the shortest path of the model to an object.
use Prim.Native.String.{String}
use gc_united.Base.{
  ℕ, zero, suc, ◌+◌, true, false, if◌then◌else◌, ◌==◌, List, [], ◌∷◌, ◌++◌, length, has, Option,
  none, some,
}
use gc_united.Model
use gc_united.Model.{Model, slots, root_ids}
use gc_united.Verify.Reports.{Origin, root_slot, in_global, in_field, Route, steps, no_path}

-- How each identity was reached first, and from which one.
abbrev pub Prev : Type 0
Prev = List (ℕ × Origin × ℕ)

unfoldable pub lookup_prev : ℕ → Prev → Option (Origin × ℕ)
lookup_prev k [] = none
lookup_prev k ((j, origin, parent) ∷ es) =
    if j == k then some (origin, parent) else lookup_prev k es

-- The variables of the search. An identity is in `seen` where it has an entry in `prev`; the queue
-- begins at `head`.
pub record Search : Type 0 where
  pub prev : Prev
  pub seen : List ℕ
  pub queue : List ℕ

-- `if seen.insert(id)` with its body.
unfoldable pub discover : Search → ℕ → Origin → ℕ → Search
discover s id origin parent = if has id s.seen then s else record {
  prev = (id, origin, parent) ∷ s.prev;
  seen = id ∷ s.seen;
  queue = s.queue ++ id ∷ [];
}

unfoldable pub discover_slots : Search → ℕ → List (Option ℕ) → Search
unfolding discover
discover_slots s slot [] = s
discover_slots s slot (none ∷ ids) = discover_slots s (suc slot) ids
discover_slots s slot (some id ∷ ids) =
    discover_slots (discover s id (root_slot slot) 0) (suc slot) ids

unfoldable pub discover_globals : Search → List (String × ℕ) → Search
unfolding discover
discover_globals s [] = s
discover_globals s ((name, id) ∷ gs) = discover_globals (discover s id (in_global name) 0) gs

unfoldable pub discover_fields : Search → ℕ → ℕ → List (Option ℕ) → Search
unfolding discover
discover_fields s id i [] = s
discover_fields s id i (none ∷ cs) = discover_fields s id (suc i) cs
discover_fields s id i (some c ∷ cs) =
    discover_fields (discover s c (in_field id i) id) id (suc i) cs

-- The search, breadth first; `none` means that the fuel ran out.
unfoldable pub search_path : ℕ → Model → ℕ → Search → Option Search
unfolding discover_fields
search_path zero m target s = elim s.queue [ [] ↦ some s | _ ∷ _ ↦ none ]
search_path (suc fuel) m target s = elim s.queue [
  | [] ↦ some s
  | id ∷ queue ↦ elim (id == target) [
    | true ↦ some s
    | false ↦ elim (Model.get m id) [
      | none ↦ search_path fuel m target (record s { queue = queue })
      | some o ↦
          search_path fuel m target (discover_fields (record s { queue = queue }) id 0 o.fields)
    ]
  ]
]

-- The loop that follows `prev` back from `cur`; its steps are in the order of the path.
unfoldable pub trace_back : ℕ → Prev → List Origin → ℕ → Option (List Origin)
unfolding lookup_prev
trace_back zero prev path cur = none
trace_back (suc fuel) prev path cur = elim (lookup_prev cur prev) [
  | none ↦ none
  | some (in_field parent index, before) ↦
      trace_back fuel prev (in_field parent index ∷ path) before
  | some (root_slot slot, _) ↦ some (root_slot slot ∷ path)
  | some (in_global name, _) ↦ some (in_global name ∷ path)
]

-- Each identity enters the queue once, and each entry of `prev` names an earlier one, so roots,
-- slots and entries are fuel enough.
unfoldable pub path_to : Model → ℕ → Option Route
unfolding lookup_prev discover_slots discover_globals search_path trace_back
path_to m target =
    let roots =
      discover_globals (discover_slots (record { prev = []; seen = []; queue = [] }) 0 m.stack)
        m.globals in
    elim (search_path (length (root_ids m) + slots m.objs) m target roots) [
      | none ↦ none
      | some s ↦ elim (lookup_prev target s.prev) [
        | none ↦ some no_path
        | some _ ↦ elim (trace_back (length s.prev) s.prev [] target) [
          | none ↦ none
          | some path ↦ some (steps path)
        ]
      ]
    ]
