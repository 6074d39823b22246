-- ===== src/Mutator/Depths.antt =====
-- What the operations of crates/gc-core/src/model.rs and crates/gc-core/src/roots.rs do to the depth
-- of the stack.
use Prim.Native.String.{String}
use mathlib.Core.Option
use gc_united.Base.{
  ℕ, ◌≡◌, refl, sym, ◌∙◌, ap, arith, Bool-cases, List, [], ◌∷◌, length, zero, suc, min,
  Option-cases, panic, drop, set, take, add32, add64, Option, none, some, ok, bind-ok, ok-inj, inl,
  inr, ltb, leb, Exec,
}
use gc_united.Heap.{Handle, size_for}
use gc_united.Roots
use gc_united.Roots.{Roots}
use gc_united.Model
use gc_united.Model.{Model, stamp_bytes, id_off, magic, magic_off}
use gc_united.Mutator.{rebind}

pub alloc-root_depth :
    (m m' : Model) (refs extra id : ℕ)
    → Model.alloc m refs extra ≡ ok (m', id)
    → Model.root_depth m' ≡ Model.root_depth m
unfolding Model.alloc Model.root_depth
alloc-root_depth m m' refs extra id e =
    let (_, _, e) = bind-ok (add64 m.next_id 1) _ e in
    let (_, _, e) = bind-ok (add64 m.seq 1) _ e in
    let (ndata, _, e) = bind-ok (add32 stamp_bytes extra) _ e in
    let (_, _, e) = bind-ok (size_for refs ndata) _ e in
    ap (λ p. Model.root_depth p.0) (sym (ok-inj e))

pub store-root_depth :
    (m m' : Model) (parent i : ℕ) (child : Option ℕ)
    → Model.store m parent i child ≡ ok m'
    → Model.root_depth m' ≡ Model.root_depth m
unfolding Model.store Model.root_depth
store-root_depth m m' parent i child e = elim (Option-cases (Model.find parent m.objs)) [
  | inl unknown ↦ let bad : panic ≡ ok m' = rw (Model.store, unknown) at e in cc
  | inr (o, found) ↦ elim (Bool-cases (ltb i (length o.fields))) [
    | inl named ↦
        let after = record m {
          objs = Model.put parent (record o { fields = set o.fields i child }) m.objs;
        } in
        let same : ok after ≡ ok m' = rw (Model.store, found, named) at e in
        ap Model.root_depth (sym (ok-inj same))
    | inr out ↦ let bad : panic ≡ ok m' = rw (Model.store, found, out) at e in cc
  ]
]

pub length-set : {A : Type 0} (xs : List A) (i : ℕ) (x : A) → length (set xs i x) ≡ length xs
length-set [] i x = refl
length-set (y ∷ ys) zero x = refl
length-set (y ∷ ys) (suc i) x = ap suc (length-set ys i x)

pub length-take : {A : Type 0} (n : ℕ) (xs : List A) → length (take n xs) ≡ min n (length xs)
length-take zero xs = ground arith
length-take (suc n) [] = ground arith
length-take (suc n) (x ∷ xs) = ground (arith, length-take n xs)

pub set_root-root_depth :
    (m m' : Model) (slot : ℕ) (id : Option ℕ)
    → Model.set_root m slot id ≡ ok m'
    → Model.root_depth m' ≡ Model.root_depth m
unfolding Model.set_root Model.root_depth
set_root-root_depth m m' slot id e = elim (Bool-cases (ltb slot (length m.stack))) [
  | inl inside ↦
      let same : ok (record m { stack = set m.stack slot id }) ≡ ok m' = rw inside at e in
      ap Model.root_depth (sym (ok-inj same)) ∙ length-set m.stack slot id
  | inr out ↦ let bad : panic ≡ ok m' = rw out at e in cc
]

pub assign-depth :
    (r r' : Roots) (slot : ℕ) (h : Handle)
    → Roots.assign r slot h ≡ ok r'
    → Roots.depth r' ≡ Roots.depth r
unfolding Roots.assign Roots.depth
assign-depth r r' slot h e = elim (Bool-cases (ltb slot (length r.stack))) [
  | inl inside ↦
      let same : ok (record r { stack = set r.stack slot h }) ≡ ok r' = rw inside at e in
      ap Roots.depth (sym (ok-inj same)) ∙ length-set r.stack slot h
  | inr out ↦ let bad : panic ≡ ok r' = rw out at e in cc
]

pub unwind-depth :
    (r r' : Roots) (dropped : List Handle) (n : ℕ)
    → Roots.unwind r n ≡ ok (r', dropped)
    → Roots.depth r' ≡ min n (Roots.depth r)
unfolding Roots.unwind Roots.depth
unwind-depth r r' dropped n e = elim (Bool-cases (leb n (length r.stack))) [
  | inl inside ↦
      let same : ok (record r { stack = take n r.stack }, drop n r.stack) ≡ ok (r', dropped) =
        rw inside at e in
      ap (λ p. Roots.depth p.0) (sym (ok-inj same)) ∙ length-take n r.stack
  | inr out ↦
      let bad : ◌≡◌ {A = Exec (Roots × List Handle)} panic (ok (r', dropped)) = rw out at e in cc
]

pub rebind-root_depth :
    (m : Model) (name : String) (found : Option ℕ)
    → Model.root_depth (rebind m name found) ≡ Model.root_depth m
unfolding rebind Model.set_global Model.remove_global Model.root_depth
rebind-root_depth m name none = refl
rebind-root_depth m name (some known) = refl

pub set_global-depth :
    (r : Roots) (name : String) (h : Handle)
    → Roots.depth (Roots.set_global r name h).0 ≡ Roots.depth r
unfolding Roots.set_global Roots.depth
set_global-depth r name h = refl

pub remove_global-depth :
    (r : Roots) (name : String) → Roots.depth (Roots.remove_global r name).0 ≡ Roots.depth r
unfolding Roots.remove_global Roots.depth
remove_global-depth r name = refl

pub remove_global-root_depth :
    (m : Model) (name : String) → Model.root_depth (Model.remove_global m name) ≡ Model.root_depth m
unfolding Model.remove_global Model.root_depth
remove_global-root_depth m name = refl

pub forget_unreachable-root_depth :
    (m m' : Model) → Model.forget_unreachable m ≡ some m' → Model.root_depth m' ≡ Model.root_depth m
unfolding Model.forget_unreachable Model.root_depth
forget_unreachable-root_depth m m' e = elim (Option-cases (Model.reachable m)) [
  | inl out ↦ let bad : none ≡ some m' = rw (Model.forget_unreachable, out) at e in cc
  | inr (live, found) ↦
      let same : some (record m { objs = Model.retain live m.objs }) ≡ some m' =
        rw (Model.forget_unreachable, found) at e in
      ap (λ o. Model.root_depth (Option.get_or o m)) (sym same)
]
