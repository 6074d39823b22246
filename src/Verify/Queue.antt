-- ===== src/Verify/Queue.antt =====
-- crates/gc-core/src/verify.rs: the loop that follows the references of the heap.
use Prim.Native.String.{String}
use gc_united.Base.{
  ℕ, zero, suc, ◌-◌, true, false, not, if◌then◌else◌, ltb, ◌==◌, List, [], ◌∷◌, ◌++◌, unsnoc, has,
  Option, none, some, ◌⊎◌, inl, inr, Exec, ok, ◌>>=◌,
}
use gc_united.Heap
use gc_united.Heap.{Heap, Handle, is_null}
use gc_united.Roots
use gc_united.Model
use gc_united.Model.{Model, ModelObj, id_off, magic, magic_off, stamp_bytes}
use gc_united.Collector.{Collector, read_field}
use gc_united.Verify.Reports.{
  Origin, root_slot, in_global, in_field, Violation, out_of_bounds, corrupt_payload,
  unknown_identity, wrong_object, null_mismatch, shape_mismatch, missing_global, Report, note,
}

-- The stamp of the object at `h`, or what is wrong there.
unfoldable pub identity : Heap → Handle → Origin → Exec (Violation ⊎ ℕ)
identity hp h origin = do
  inside ← Heap.in_bounds hp h
  if not inside then ok (inl (out_of_bounds origin h)) else (do
    (start, end) ← Heap.data_range hp h
    if ltb (end - start) stamp_bytes then ok (inl (corrupt_payload origin h 0)) else (do
      found ← Heap.data_u32 hp h magic_off
      if not (found == magic)
          then ok (inl (corrupt_payload origin h found))
          else (do id ← Heap.data_u64 hp h id_off; ok (inr id))))

-- The handle, where it was found, and the identity that is expected there.
abbrev pub Item : Type 0
Item = Handle × Origin × Option ℕ

-- The variables of `verify`. `id_at` has the addresses at which an identity was found.
pub record Walk : Type 0 where
  pub report : Report
  pub id_at : List (ℕ × List Handle)
  pub visited : List Handle
  pub queue : List Item

abbrev pub noted : Walk → Violation → Walk
noted w v = record w { report = note w.report v }

-- What a slot should hold against whether it is null: an item for the queue, or a mismatch.
unfoldable pub compare_slot : Walk → Handle → Origin → Option ℕ → Walk
unfolding note
compare_slot w h origin none = if is_null h then w else noted w (null_mismatch origin true)
compare_slot w h origin (some id) =
    if is_null h
    then noted w (null_mismatch origin false)
    else record w { queue = w.queue ++ (h, origin, some id) ∷ [] }

-- The root slots from `slot` on, `n` of them.
unfoldable pub check_slots : Roots.Roots → Model → Walk → ℕ → ℕ → Exec Walk
unfolding compare_slot
check_slots r m w slot zero = ok w
check_slots r m w slot (suc n) = do
  h ← Roots.get r slot
  expected ← Model.root m slot
  check_slots r m (compare_slot w h (root_slot slot) expected) (suc slot) n

unfoldable pub check_globals : Roots.Roots → Walk → List (String × ℕ) → Walk
unfolding note
check_globals r w [] = w
check_globals r w ((name, id) ∷ gs) =
    let h = Roots.global r name in
    let next =
      if is_null h
      then noted w (missing_global name)
      else record w { queue = w.queue ++ (h, in_global name, some id) ∷ [] } in
    check_globals r next gs

-- `id_at.entry(id).or_default().push(h)`
unfoldable pub add_address : ℕ → Handle → List (ℕ × List Handle) → List (ℕ × List Handle)
add_address id h [] = (id, h ∷ []) ∷ []
add_address id h ((j, hs) ∷ rest) =
    if j == id then (j, hs ++ h ∷ []) ∷ rest else (j, hs) ∷ add_address id h rest

-- The stamp `found` against the one that is expected.
unfoldable pub check_expected : Walk → Handle → Origin → Option ℕ → ℕ → Walk
unfolding note
check_expected w h origin none found = w
check_expected w h origin (some want) found =
    if want == found then w else noted w (wrong_object origin h want found)

module _ {C : Type 0} ⦃c : Collector C⦄ where
  -- The fields of the object at `h`, from `i` on.
  unfoldable pub check_fields : C → Walk → Handle → ℕ → ℕ → List (Option ℕ) → Exec Walk
  unfolding compare_slot
  check_fields gc w h found i [] = ok w
  check_fields gc w h found i (want ∷ wants) = do
    child ← read_field gc h i
    check_fields gc (compare_slot w child (in_field found i) want) h found (suc i) wants

  -- A first visit at `h` of the object that the model knows as `o`.
  unfoldable pub check_shape : C → Walk → Handle → ℕ → ModelObj → Exec Walk
  unfolding note check_fields
  check_shape gc w h found o = do
    n ← Heap.nrefs (c.heap gc) h
    if not (n == o.nrefs)
        then ok (noted w (shape_mismatch found h o.nrefs n))
        else check_fields gc w h found 0 o.fields

  -- The object that `h` names is known to the model.
  unfoldable pub check_known : C → Walk → Handle → ℕ → ModelObj → Exec Walk
  unfolding add_address check_shape
  check_known gc w h found o =
      let w' = record w { id_at = add_address found h w.id_at } in
      if has h w.visited
      then ok w'
      else check_shape gc (record w' { visited = h ∷ w.visited }) h found o

  -- The object that `h` names carries the stamp `found`.
  unfoldable pub check_found : C → Model → Walk → Handle → Origin → Option ℕ → ℕ → Exec Walk
  unfolding note check_expected check_known
  check_found gc m w h origin expected found =
      let w' = check_expected w h origin expected found in
      elim (Model.get m found) [
        | none ↦ ok (noted w' (unknown_identity origin h found))
        | some o ↦ check_known gc w' h found o
      ]

  -- One round of the loop.
  unfoldable pub check_item : C → Model → Walk → Item → Exec Walk
  unfolding identity note check_found
  check_item gc m w (h, origin, expected) = do
    answer ← identity (c.heap gc) h origin
    elim answer [ inl v ↦ ok (noted w v) | inr found ↦ check_found gc m w h origin expected found ]

  -- The loop over the queue, which pops from the end; `none` means that the fuel ran out.
  unfoldable pub walk_queue : ℕ → C → Model → Walk → Exec (Option Walk)
  unfolding unsnoc check_item
  walk_queue zero gc m w = elim w.queue [ [] ↦ ok (some w) | _ ∷ _ ↦ ok none ]
  walk_queue (suc fuel) gc m w = elim (unsnoc w.queue) [
    | none ↦ ok (some w)
    | some (rest, item) ↦ (do
      w' ← check_item gc m (record w { queue = rest }) item
      walk_queue fuel gc m w')
  ]
