-- ===== src/Mutator/Steps.antt =====
-- crates/gc-core/src/mutator.rs: each call keeps the two stacks at one depth.
use Prim.Native.String.{String}
use mathlib.Core.Option
use gc_united.Base.{
  ℕ, ◌+◌, ◌≡◌, sym, ◌∙◌, ap, arith, Bool-cases, List, [], ◌∷◌, length-append, min, Option-cases,
  subst, add32, Option, none, some, ok, bind-ok, ok-inj, inl, inr, Exec, ◌>>=◌,
}
use gc_united.Heap
use gc_united.Heap.{Heap, Handle, null, is_null, size_for}
use gc_united.Roots
use gc_united.Roots.{Roots}
use gc_united.Stats.{GcResult, allocated, out_of_memory}
use gc_united.Model
use gc_united.Model.{Model, stamp_bytes, id_off, magic, magic_off}
use gc_united.Collector.{Collector, read_field}
use gc_united.Mutator
use gc_united.Mutator.{Mutator}
use gc_united.Mutator.Depths.{
  alloc-root_depth, store-root_depth, length-take, set_root-root_depth, assign-depth, unwind-depth,
  rebind-root_depth, set_global-depth, remove_global-depth, remove_global-root_depth,
  forget_unreachable-root_depth,
}

module _ {C : Type 0} ⦃c : Collector C⦄ where
  abbrev pub depth : C → ℕ
  depth gc = Roots.depth (c.roots gc)

-- What a collector does with its roots, apart from the values of the handles: setting them sets
-- them, and no operation pushes or pops.
pub record KeepsDepth (C : Type 0) ⦃c : Collector C⦄ : Type 0 where
  pub roots_set : (gc : C) (r : Roots) → c.roots (c.set_roots gc r) ≡ r
  pub heap_set : (gc : C) (hp : Heap) → depth (c.set_heap gc hp) ≡ depth gc
  pub alloc :
      (gc gc' : C) (refs ndata : ℕ) (answer : GcResult)
      → c.alloc gc refs ndata ≡ ok (gc', answer)
      → depth gc' ≡ depth gc
  pub write_field :
      (gc gc' : C) (obj : Handle) (i : ℕ) (val : Handle)
      → c.write_field gc obj i val ≡ ok gc'
      → depth gc' ≡ depth gc
  pub collect : (gc gc' : C) → c.collect gc ≡ ok gc' → depth gc' ≡ depth gc
  pub pushed : (gc gc' : C) (h : Handle) → c.on_root_pushed gc h ≡ ok gc' → depth gc' ≡ depth gc
  pub popped : (gc gc' : C) (h : Handle) → c.on_root_popped gc h ≡ ok gc' → depth gc' ≡ depth gc
  pub global_changed :
      (gc gc' : C) (old new : Handle)
      → c.on_global_changed gc old new ≡ ok gc'
      → depth gc' ≡ depth gc

module _ {C : Type 0} ⦃c : Collector C⦄ where
  -- As many roots on the one side as on the other.
  abbrev pub IsMirrored : Mutator C → Type 0
  IsMirrored mu = depth mu.gc ≡ Model.root_depth mu.model

  module _ (laws : KeepsDepth C) where
    pub stamp-depth :
        (gc gc' : C) (h : Handle) (id : ℕ) → Mutator.stamp gc h id ≡ ok gc' → depth gc' ≡ depth gc
    unfolding Mutator.stamp
    stamp-depth gc gc' h id e =
        let (hp, _, e) = bind-ok (Heap.set_data_u64 (c.heap gc) h id_off id) _ e in
        let (hp', _, e) = bind-ok (Heap.set_data_u32 hp h magic_off magic) _ e in
        ap depth (sym (ok-inj e)) ∙ laws.heap_set gc hp'

    pub pushed-depth :
        (gc gc' : C) (h : Handle) → Mutator.pushed gc h ≡ ok gc' → depth gc' ≡ depth gc
    unfolding Mutator.pushed
    pushed-depth gc gc' h e = elim (Bool-cases (is_null h)) [
      | inl nothing ↦ let same : ok gc ≡ ok gc' = rw nothing at e in ap depth (sym (ok-inj same))
      | inr some_object ↦ laws.pushed gc gc' h (rw some_object at e)
    ]

    pub popped-depth :
        (gc gc' : C) (h : Handle) → Mutator.popped gc h ≡ ok gc' → depth gc' ≡ depth gc
    unfolding Mutator.popped
    popped-depth gc gc' h e = elim (Bool-cases (is_null h)) [
      | inl nothing ↦ let same : ok gc ≡ ok gc' = rw nothing at e in ap depth (sym (ok-inj same))
      | inr some_object ↦ laws.popped gc gc' h (rw some_object at e)
    ]

    pub pop_all-depth :
        (gc gc' : C) (hs : List Handle) → Mutator.pop_all gc hs ≡ ok gc' → depth gc' ≡ depth gc
    unfolding Mutator.pop_all
    pop_all-depth gc gc' [] e = ap depth (sym (ok-inj e))
    pop_all-depth gc gc' (h ∷ hs) e =
        let (gc1, first, rest) = bind-ok (Mutator.popped gc h) _ e in
        pop_all-depth gc1 gc' hs rest ∙ popped-depth gc gc1 h first

    -- The depth once the stack is replaced and a handle has gone through a hook.
    after_set :
        (gc gc' : C) (r : Roots) → depth gc' ≡ depth (c.set_roots gc r) → depth gc' ≡ Roots.depth r
    after_set gc gc' r kept = kept ∙ ap Roots.depth (laws.roots_set gc r)

    depth-push : (r : Roots) (h : Handle) → Roots.depth (Roots.push r h).0 ≡ Roots.depth r + 1
    unfolding Roots.push Roots.depth
    depth-push r h = length-append r.stack (h ∷ [])

    root_depth-push :
        (m : Model) (id : Option ℕ)
        → Model.root_depth (Model.push_root m id) ≡ Model.root_depth m + 1
    unfolding Model.push_root Model.root_depth
    root_depth-push m id = length-append m.stack (id ∷ [])

    pub push_both-IsMirrored :
        (mu mu' : Mutator C) (h : Handle) (id : Option ℕ) (slot : ℕ)
        → IsMirrored mu
        → Mutator.push_both mu h id ≡ ok (mu', slot)
        → IsMirrored mu'
    unfolding Mutator.push_both
    push_both-IsMirrored mu mu' h id slot same e =
        let r = (Roots.push (c.roots mu.gc) h).0 in
        let (gc, run, done) = bind-ok (Mutator.pushed (c.set_roots mu.gc r) h) _ e in
        let kept = after_set mu.gc gc r (pushed-depth _ gc h run) in
        subst (λ p. IsMirrored p.0) (ok-inj done)
          (omega (arith, kept, same, depth-push (c.roots mu.gc) h, root_depth-push mu.model id))

    pub enroll-IsMirrored :
        (gc : C) (m : Model) (mu' : Mutator C) (h : Handle) (refs extra slot : ℕ)
        → depth gc ≡ Model.root_depth m
        → Mutator.enroll gc m h refs extra ≡ ok (mu', slot)
        → IsMirrored mu'
    unfolding Mutator.enroll
    enroll-IsMirrored gc m mu' h refs extra slot same e =
        let ((m1, id), made, e) = bind-ok (Model.alloc m refs extra) _ e in
        let (gc1, stamped, e) = bind-ok (Mutator.stamp gc h id) _ e in
        let r = (Roots.push (c.roots gc1) h).0 in
        let (gc2, run, done) = bind-ok (c.on_root_pushed (c.set_roots gc1 r) h) _ e in
        let kept = after_set gc1 gc2 r (laws.pushed _ gc2 h run) in
        subst (λ p. IsMirrored p.0) (ok-inj done)
          (omega (
            arith,
            kept,
            same,
            alloc-root_depth m m1 refs extra id made,
            stamp-depth gc gc1 h id stamped,
            depth-push (c.roots gc1) h,
            root_depth-push m1 (some id),
          ))

    pub try_alloc-IsMirrored :
        (mu mu' : Mutator C) (refs extra : ℕ) (answer : Mutator.SlotResult)
        → IsMirrored mu
        → Mutator.try_alloc mu refs extra ≡ ok (mu', answer)
        → IsMirrored mu'
    unfolding Mutator.try_alloc
    try_alloc-IsMirrored mu mu' refs extra answer same e =
        let (ndata, _, e) = bind-ok (add32 stamp_bytes extra) _ e in
        let ((gc, found), run, e) = bind-ok (c.alloc mu.gc refs ndata) _ e in
        let kept = laws.alloc mu.gc gc refs ndata found run in
        elim found
            as (λ a.
              (elim a as (λ _. Exec (Mutator C × Mutator.SlotResult)) [
                | out_of_memory requested used capacity ↦
                    ok (record mu { gc = gc }, Mutator.failed requested used capacity)
                | allocated h ↦
                    (Mutator.enroll gc mu.model h refs extra >>= λ (mu', slot).
                    ok (mu', Mutator.rooted slot))
              ])
                ≡ ok (mu', answer)
              → IsMirrored mu') [
                | out_of_memory _ _ _ ↦ λ e. subst (λ p. IsMirrored p.0) (ok-inj e) (kept ∙ same)
                | allocated h ↦ λ e.
                    let ((mu1, slot), enrolled, done) =
                      bind-ok (Mutator.enroll gc mu.model h refs extra) _ e in
                    subst (λ p. IsMirrored p.0) (ok-inj done)
                      (enroll-IsMirrored gc mu.model mu1 h refs extra slot (kept ∙ same) enrolled)
              ]
          e

    module _ (mu mu' : Mutator C) (same : IsMirrored mu) where
      pub store-IsMirrored :
          (parent i child : ℕ) → Mutator.store mu parent i child ≡ ok mu' → IsMirrored mu'
      unfolding Mutator.store Mutator.id
      store-IsMirrored parent i child e =
          let (p, _, e) = bind-ok (Mutator.handle mu parent) _ e in
          let (h, _, e) = bind-ok (Mutator.handle mu child) _ e in
          let (gc, written, e) = bind-ok (c.write_field mu.gc p i h) _ e in
          let (pid, _, e) = bind-ok (Model.root mu.model parent) _ e in
          let (cid, _, e) = bind-ok (Model.root mu.model child) _ e in
          let (known, _, e) = bind-ok (Mutator.expect pid) _ e in
          let (m, stored, e) = bind-ok (Model.store mu.model known i cid) _ e in
          subst IsMirrored (ok-inj e) (
            laws.write_field mu.gc gc p i h written
            ∙ same
            ∙ sym (store-root_depth mu.model m known i cid stored))

      pub store_null-IsMirrored :
          (parent i : ℕ) → Mutator.store_null mu parent i ≡ ok mu' → IsMirrored mu'
      unfolding Mutator.store_null Mutator.id
      store_null-IsMirrored parent i e =
          let (p, _, e) = bind-ok (Mutator.handle mu parent) _ e in
          let (gc, written, e) = bind-ok (c.write_field mu.gc p i null) _ e in
          let (pid, _, e) = bind-ok (Model.root mu.model parent) _ e in
          let (known, _, e) = bind-ok (Mutator.expect pid) _ e in
          let (m, stored, e) = bind-ok (Model.store mu.model known i none) _ e in
          subst IsMirrored (ok-inj e) (
            laws.write_field mu.gc gc p i null written
            ∙ same
            ∙ sym (store-root_depth mu.model m known i none stored))

      pub load-IsMirrored :
          (parent i slot : ℕ) → Mutator.load mu parent i ≡ ok (mu', slot) → IsMirrored mu'
      unfolding Mutator.load Mutator.id
      load-IsMirrored parent i slot e =
          let (p, _, e) = bind-ok (Mutator.handle mu parent) _ e in
          let (child, _, e) = bind-ok (read_field mu.gc p i) _ e in
          let (pid, _, e) = bind-ok (Model.root mu.model parent) _ e in
          let (known, _, e) = bind-ok (Mutator.expect pid) _ e in
          let (cid, _, e) = bind-ok (Model.field mu.model known i) _ e in
          push_both-IsMirrored mu mu' child cid slot same e

      pub dup-IsMirrored : (from slot : ℕ) → Mutator.dup mu from ≡ ok (mu', slot) → IsMirrored mu'
      unfolding Mutator.dup Mutator.id
      dup-IsMirrored from slot e =
          let (h, _, e) = bind-ok (Mutator.handle mu from) _ e in
          let (found, _, e) = bind-ok (Model.root mu.model from) _ e in
          push_both-IsMirrored mu mu' h found slot same e

      pub assign-IsMirrored : (dst src : ℕ) → Mutator.assign mu dst src ≡ ok mu' → IsMirrored mu'
      unfolding Mutator.assign Mutator.id
      assign-IsMirrored dst src e =
          let (new, _, e) = bind-ok (Mutator.handle mu src) _ e in
          let (old, _, e) = bind-ok (Mutator.handle mu dst) _ e in
          let (gc, pushes, e) = bind-ok (Mutator.pushed mu.gc new) _ e in
          let (r, assigned, e) = bind-ok (Roots.assign (c.roots gc) dst new) _ e in
          let (gc', pops, e) = bind-ok (Mutator.popped (c.set_roots gc r) old) _ e in
          let (found, _, e) = bind-ok (Model.root mu.model src) _ e in
          let (m, mirrored, e) = bind-ok (Model.set_root mu.model dst found) _ e in
          let kept = after_set gc gc' r (popped-depth _ gc' old pops) in
          subst IsMirrored (ok-inj e) (
            omega (
              arith,
              kept,
              same,
              assign-depth (c.roots gc) r dst new assigned,
              pushed-depth mu.gc gc new pushes,
              set_root-root_depth mu.model m dst found mirrored,
            ))

      pub unwind-IsMirrored : (n : ℕ) → Mutator.unwind mu n ≡ ok mu' → IsMirrored mu'
      unfolding Mutator.unwind Model.unwind Model.root_depth
      unwind-IsMirrored n e =
          let ((r, dropped), unwound, e) = bind-ok (Roots.unwind (c.roots mu.gc) n) _ e in
          let (gc, pops, e) = bind-ok (Mutator.pop_all (c.set_roots mu.gc r) dropped) _ e in
          let kept = after_set mu.gc gc r (pop_all-depth _ gc dropped pops) in
          subst IsMirrored (ok-inj e) (
            kept
            ∙ unwind-depth (c.roots mu.gc) r dropped n unwound
            ∙ ap (min n) same
            ∙ sym (length-take n mu.model.stack))

      pub set_global-IsMirrored :
          (name : String) (slot : ℕ) → Mutator.set_global mu name slot ≡ ok mu' → IsMirrored mu'
      unfolding Mutator.set_global Mutator.id
      set_global-IsMirrored name slot e =
          let (h, _, e) = bind-ok (Mutator.handle mu slot) _ e in
          let (gc, changed, e) =
            bind-ok
              (c.on_global_changed (c.set_roots mu.gc (Roots.set_global (c.roots mu.gc) name h).0) _
                h)
              _ e in
          let (found, _, e) = bind-ok (Model.root mu.model slot) _ e in
          let kept = after_set mu.gc gc _ (laws.global_changed _ gc _ h changed) in
          subst IsMirrored (ok-inj e) (
            kept
            ∙ set_global-depth (c.roots mu.gc) name h
            ∙ same
            ∙ sym (rebind-root_depth mu.model name found))

      pub global-IsMirrored :
          (name : String) (slot : ℕ) → Mutator.global mu name ≡ ok (mu', slot) → IsMirrored mu'
      unfolding Mutator.global
      global-IsMirrored name slot e = push_both-IsMirrored mu mu' _ _ slot same e

      pub clear_global-IsMirrored :
          (name : String) → Mutator.clear_global mu name ≡ ok mu' → IsMirrored mu'
      unfolding Mutator.clear_global
      clear_global-IsMirrored name e =
          let r = (Roots.remove_global (c.roots mu.gc) name).0 in
          let (gc, changed, e) = bind-ok (c.on_global_changed (c.set_roots mu.gc r) _ null) _ e in
          let kept = after_set mu.gc gc r (laws.global_changed _ gc _ null changed) in
          subst IsMirrored (ok-inj e) (
            kept
            ∙ remove_global-depth (c.roots mu.gc) name
            ∙ same
            ∙ sym (remove_global-root_depth mu.model name))

      pub write_u64-IsMirrored :
          (slot index v : ℕ) → Mutator.write_u64 mu slot index v ≡ ok mu' → IsMirrored mu'
      unfolding Mutator.write_u64
      write_u64-IsMirrored slot index v e =
          let (h, _, e) = bind-ok (Mutator.handle mu slot) _ e in
          let (off, _, e) = bind-ok (Mutator.word_offset index) _ e in
          let (hp, _, e) = bind-ok (Heap.set_data_u64 (c.heap mu.gc) h off v) _ e in
          subst IsMirrored (ok-inj e) (laws.heap_set mu.gc hp ∙ same)

      pub collect-IsMirrored : Mutator.collect mu ≡ ok mu' → IsMirrored mu'
      unfolding Mutator.collect
      collect-IsMirrored e =
          let (gc, collected, e) = bind-ok (c.collect mu.gc) _ e in
          subst IsMirrored (ok-inj e) (laws.collect mu.gc gc collected ∙ same)

      pub forget_unreachable-IsMirrored : Mutator.forget_unreachable mu ≡ some mu' → IsMirrored mu'
      unfolding Mutator.forget_unreachable
      forget_unreachable-IsMirrored e = elim (Option-cases (Model.forget_unreachable mu.model)) [
        | inl out ↦ let bad : none ≡ some mu' = rw (Mutator.forget_unreachable, out) at e in cc
        | inr (m, forgot) ↦
            let now : some (record mu { model = m }) ≡ some mu' =
              rw (Mutator.forget_unreachable, forgot) at e in
            subst (λ o. IsMirrored (Option.get_or o mu)) now
              (same ∙ sym (forget_unreachable-root_depth mu.model m forgot))
      ]
