-- ===== src/Roots.antt =====
-- crates/gc-core/src/roots.rs: the shadow stack and the table of globals, an association list.
use text.Mathlib.Text.{◌==◌ as str_eq}
use Prim.Native.String.{String}
use mathlib.Core.Option
use gc_united.Base.{
  ℕ, if◌then◌else◌, ltb, leb, List, [], ◌∷◌, ◌++◌, map, length, get_elem?, set, take, drop, Option,
  none, some, Exec, ok, panic, ◌>>=◌,
}
use gc_united.Heap.{Handle, null, is_null}

pub record Roots : Type 0 where
  pub stack : List Handle
  pub globals : List (String × Handle)

unfoldable pub new : Roots
new = record { stack = []; globals = [] }

-- The slot is the index of the pushed handle.
unfoldable pub push : Roots → Handle → Roots × ℕ
push r h = (record r { stack = r.stack ++ h ∷ [] }, length r.stack)

unfoldable pub get : Roots → ℕ → Exec Handle
get r slot = elim (get_elem? r.stack slot) [ none ↦ panic | some h ↦ ok h ]

unfoldable pub assign : Roots → ℕ → Handle → Exec Roots
assign r slot h =
    if ltb slot (length r.stack) then ok (record r { stack = set r.stack slot h }) else panic

unfoldable pub depth : Roots → ℕ
depth r = length r.stack

-- `split_off` panics past the end.
unfoldable pub unwind : Roots → ℕ → Exec (Roots × List Handle)
unwind r n =
    if leb n (length r.stack)
    then ok (record r { stack = take n r.stack }, drop n r.stack)
    else panic

unfoldable pub insert_global :
    String → Handle → List (String × Handle) → List (String × Handle) × Option Handle
insert_global k v [] = ((k, v) ∷ [], none)
insert_global k v ((j, w) ∷ gs) =
    let (rest, old) = insert_global k v gs in
    if str_eq j k then ((k, v) ∷ gs, some w) else ((j, w) ∷ rest, old)

unfoldable pub set_global : Roots → String → Handle → Roots × Option Handle
unfolding insert_global
set_global r name h =
    let (gs, old) = insert_global name h r.globals in (record r { globals = gs }, old)

unfoldable pub lookup_global : String → List (String × Handle) → Option Handle
lookup_global k [] = none
lookup_global k ((j, w) ∷ gs) = if str_eq j k then some w else lookup_global k gs

unfoldable pub global : Roots → String → Handle
unfolding lookup_global
global r name = Option.get_or (lookup_global name r.globals) null

unfoldable pub delete_global : String → List (String × Handle) → List (String × Handle)
delete_global k [] = []
delete_global k ((j, w) ∷ gs) = if str_eq j k then gs else (j, w) ∷ delete_global k gs

unfoldable pub remove_global : Roots → String → Roots × Option Handle
unfolding lookup_global delete_global
remove_global r name =
    (record r { globals = delete_global name r.globals }, lookup_global name r.globals)

unfoldable pub not_null : List Handle → List Handle
not_null [] = []
not_null (h ∷ hs) = if is_null h then not_null hs else h ∷ not_null hs

-- `iter`: every non-null root.
unfoldable pub handles : Roots → List Handle
unfolding not_null
handles r = not_null (r.stack ++ map (λ (_, h). h) r.globals)

-- `for_each_mut` with a closure that may change a state `S` of its own.
module _ {S : Type 0} (f : S → Handle → Exec (S × Handle)) where
  unfoldable pub visit : S → List Handle → Exec (S × List Handle)
  visit s [] = ok (s, [])
  visit s (h ∷ hs) = do
    (s1, h') ← if is_null h then ok (s, h) else f s h
    (s2, hs') ← visit s1 hs
    ok (s2, h' ∷ hs')

  unfoldable pub visit_globals : S → List (String × Handle) → Exec (S × List (String × Handle))
  visit_globals s [] = ok (s, [])
  visit_globals s ((name, h) ∷ gs) = do
    (s1, h') ← if is_null h then ok (s, h) else f s h
    (s2, gs') ← visit_globals s1 gs
    ok (s2, (name, h') ∷ gs')

  unfoldable pub for_each_mut : S → Roots → Exec (S × Roots)
  unfolding visit visit_globals
  for_each_mut s r = do
    (s1, stack) ← visit s r.stack
    (s2, globals) ← visit_globals s1 r.globals
    ok (s2, record { stack = stack; globals = globals })
