-- ===== src/Model.antt =====
-- crates/gc-core/src/model.rs: the independent model of the object graph. A `HashMap` is an
-- association list, whose order no operation depends on; `BTreeSet` is a list without repetition.
pub mod Reach
pub mod Forget
use text.Mathlib.Text.{◌==◌ as str_eq}
use Prim.Native.String.{String}
use mathlib.Core.List.{reverse}
use mathlib.Core.Option
use gc_united.Base.{
  ℕ, zero, suc, ◌+◌, ◌-◌, Bool, true, false, not, if◌then◌else◌, ltb, leb, ◌==◌, List, [], ◌∷◌,
  ◌++◌, map, length, get_elem?, set, take, replicate, has, Option, none, some, Exec, ok, panic,
  assert, ◌>>=◌, ◌>>◌, add32, add64,
}
use gc_united.Heap.{size_for}

abbrev pub stamp_bytes : ℕ
stamp_bytes = 12

abbrev pub id_off : ℕ
id_off = 0

abbrev pub magic_off : ℕ
magic_off = 8

abbrev pub magic : ℕ
magic = 0xC0FF_EE01

pub record ModelObj : Type 0 where
  pub id : ℕ
  pub nrefs : ℕ
  pub extra : ℕ
  pub size : ℕ
  pub fields : List (Option ℕ)
  pub seq : ℕ

abbrev pub Objects : Type 0
Objects = List (ℕ × ModelObj)

pub record Model : Type 0 where
  pub objs : Objects
  pub stack : List (Option ℕ)
  pub globals : List (String × ℕ)
  pub next_id : ℕ
  pub seq : ℕ

unfoldable pub new : Model
new = record { objs = []; stack = []; globals = []; next_id = 1; seq = 0 }

-- `HashMap` on identities: `get`, `insert`, `retain`.
unfoldable pub find : ℕ → Objects → Option ModelObj
find k [] = none
find k ((j, o) ∷ os) = if j == k then some o else find k os

unfoldable pub put : ℕ → ModelObj → Objects → Objects
put k v [] = (k, v) ∷ []
put k v ((j, o) ∷ os) = if j == k then (k, v) ∷ os else (j, o) ∷ put k v os

unfoldable pub retain : List ℕ → Objects → Objects
retain live [] = []
retain live ((j, o) ∷ os) = if has j live then (j, o) ∷ retain live os else retain live os

unfoldable pub alloc : Model → ℕ → ℕ → Exec (Model × ℕ)
unfolding put
alloc m nrefs extra = do
  let id = m.next_id
  next ← add64 id 1
  seq ← add64 m.seq 1
  ndata ← add32 stamp_bytes extra
  size ← size_for nrefs ndata
  let o : ModelObj = record {
    id = id;
    nrefs = nrefs;
    extra = extra;
    size = size;
    fields = replicate nrefs none;
    seq = seq;
  }
  ok (record m { objs = put id o m.objs; next_id = next; seq = seq }, id)

unfoldable pub get : Model → ℕ → Option ModelObj
unfolding find
get m id = find id m.objs

unfoldable pub store : Model → ℕ → ℕ → Option ℕ → Exec Model
unfolding find put
store m parent i child = elim (find parent m.objs) [
  | none ↦ panic
  | some o ↦
      if ltb i (length o.fields)
      then ok (record m { objs = put parent (record o { fields = set o.fields i child }) m.objs })
      else panic
]

unfoldable pub field : Model → ℕ → ℕ → Exec (Option ℕ)
unfolding find
field m parent i = elim (find parent m.objs) [
  | none ↦ panic
  | some o ↦ elim (get_elem? o.fields i) [ none ↦ panic | some c ↦ ok c ]
]

unfoldable pub push_root : Model → Option ℕ → Model
push_root m id = record m { stack = m.stack ++ id ∷ [] }

-- `truncate` leaves a shorter stack as it is.
unfoldable pub unwind : Model → ℕ → Model
unwind m depth = record m { stack = take depth m.stack }

unfoldable pub root_depth : Model → ℕ
root_depth m = length m.stack

unfoldable pub root : Model → ℕ → Exec (Option ℕ)
root m slot = elim (get_elem? m.stack slot) [ none ↦ panic | some id ↦ ok id ]

unfoldable pub set_root : Model → ℕ → Option ℕ → Exec Model
set_root m slot id =
    if ltb slot (length m.stack) then ok (record m { stack = set m.stack slot id }) else panic

unfoldable pub bind : String → ℕ → List (String × ℕ) → List (String × ℕ)
bind k v [] = (k, v) ∷ []
bind k v ((j, w) ∷ gs) = if str_eq j k then (k, v) ∷ gs else (j, w) ∷ bind k v gs

unfoldable pub unbind : String → List (String × ℕ) → List (String × ℕ)
unbind k [] = []
unbind k ((j, w) ∷ gs) = if str_eq j k then gs else (j, w) ∷ unbind k gs

unfoldable pub bound : String → List (String × ℕ) → Option ℕ
bound k [] = none
bound k ((j, w) ∷ gs) = if str_eq j k then some w else bound k gs

unfoldable pub set_global : Model → String → ℕ → Model
unfolding bind
set_global m name id = record m { globals = bind name id m.globals }

unfoldable pub remove_global : Model → String → Model
unfolding unbind
remove_global m name = record m { globals = unbind name m.globals }

unfoldable pub global : Model → String → Option ℕ
unfolding bound
global m name = bound name m.globals

-- `iter().flatten()`
unfoldable pub somes : List (Option ℕ) → List ℕ
somes [] = []
somes (none ∷ xs) = somes xs
somes (some x ∷ xs) = x ∷ somes xs

unfoldable pub root_ids : Model → List ℕ
unfolding somes
root_ids m = somes m.stack ++ map (λ (_, id). id) m.globals

-- The identities in the fields of an object; an unknown object has none.
unfoldable pub children : Objects → ℕ → List ℕ
unfolding find somes
children os id = elim (find id os) [ none ↦ [] | some o ↦ somes o.fields ]

-- The loop of `reachable`. The next item that `pop` takes stands first in `work`; `none` means that
-- the fuel ran out.
unfoldable pub trace : ℕ → Objects → List ℕ → List ℕ → Option (List ℕ)
unfolding children
trace fuel os seen [] = some seen
trace zero os seen (id ∷ work) = none
trace (suc fuel) os seen (id ∷ work) = elim (has id seen) [
  | true ↦ trace fuel os seen work
  | false ↦ trace fuel os (id ∷ seen) (reverse (children os id) ++ work)
]

-- All field slots.
unfoldable pub slots : Objects → ℕ
slots [] = 0
slots ((_, o) ∷ os) = length o.fields + slots os

unfoldable pub reachable : Model → Option (List ℕ)
unfolding root_ids slots trace
reachable m = trace (length (root_ids m) + slots m.objs) m.objs [] (reverse (root_ids m))

-- The sum on `u64` of the sizes of known objects.
unfoldable pub sum_known : Objects → ℕ → List ℕ → Exec ℕ
unfolding find
sum_known os acc [] = ok acc
sum_known os acc (id ∷ ids) = do
  acc' ← elim (find id os) [ none ↦ ok acc | some o ↦ add64 acc o.size ]
  sum_known os acc' ids

unfoldable pub reachable_bytes : Model → Option (Exec ℕ)
unfolding reachable sum_known
reachable_bytes m = Option.map (sum_known m.objs 0) (reachable m)

unfoldable pub all_ids : Model → List ℕ
all_ids m = map (λ (id, _). id) m.objs

unfoldable pub forget_unreachable : Model → Option Model
unfolding reachable retain
forget_unreachable m = Option.map (λ live. record m { objs = retain live m.objs }) (reachable m)

unfoldable pub len : Model → ℕ
len m = length m.objs

unfoldable pub is_empty : Model → Bool
unfolding len
is_empty m = len m == 0
