-- ===== src/MarkCompact/Instance.antt =====
-- crates/gc-mod05/src/lib.rs: the collector as an implementation of the interface.
use gc_united.Base.{
  ℕ, ◌≡◌, refl, sym, ◌∙◌, ap, Bool, true, false, Bool-cases, if◌then◌else◌, inl, inr, ltb, leb,
  ◌&&◌, ok, panic, bind-ok, ok-inj, Exec-cases, add32, add64,
}
use gc_united.Heap
use gc_united.Heap.{Heap, Handle, size_for}
use gc_united.Roots
use gc_united.Roots.{Roots}
use gc_united.Stats.{GcResult, account}
use gc_united.Collector.{Collector}
use gc_united.Mutator.Steps.{KeepsDepth}
use gc_united.MarkCompact
use gc_united.MarkCompact.{MarkCompact, thrash_limit}

-- The hooks are the defaults of the trait. The clock says 0.
instance unfoldable pub mark_compact : Collector MarkCompact
mark_compact = record {
  heap = λ gc. gc.heap;
  set_heap = λ gc hp. record gc { heap = hp };
  roots = λ gc. gc.roots;
  set_roots = λ gc r. record gc { roots = r };
  stats = λ gc. gc.stats;
  used_bytes = λ gc. ok gc.top;
  alloc = λ gc refs ndata. MarkCompact.alloc gc refs ndata (0, 0);
  write_field = MarkCompact.write_field;
  collect = λ gc. MarkCompact.collect gc 0;
  on_root_pushed = λ gc h. ok gc;
  on_root_popped = λ gc h. ok gc;
  on_global_changed = λ gc old new. ok gc;
}

-- `compute_forwarding` is missing, so that no collection returns.
pub collect-panics : (gc : MarkCompact) (elapsed : ℕ) → MarkCompact.collect gc elapsed ≡ panic
unfolding MarkCompact.collect MarkCompact.compute_forwarding
collect-panics gc elapsed = elim (Exec-cases (MarkCompact.mark_from_roots gc)) [
  | inl out ↦ rw out refl
  | inr (gc', e) ↦ rw e refl
]

maybe_collect-roots :
    (worth : Bool) (gc gc' : MarkCompact) (elapsed : ℕ)
    → (if worth then MarkCompact.collect gc elapsed else ok gc) ≡ ok gc'
    → gc'.roots ≡ gc.roots
maybe_collect-roots true gc gc' elapsed e =
    let bad : panic ≡ ok gc' = sym (collect-panics gc elapsed) ∙ e in cc
maybe_collect-roots false gc gc' elapsed e = ap (λ g. g.roots) (sym (ok-inj e))

bump-roots :
    (gc gc' : MarkCompact) (need refs ndata : ℕ) (answer : GcResult)
    → MarkCompact.bump gc need refs ndata ≡ ok (gc', answer)
    → gc'.roots ≡ gc.roots
unfolding MarkCompact.bump MarkCompact.refused
bump-roots gc gc' need refs ndata answer e =
    let (end, _, e) = bind-ok (add32 gc.top need) _ e in
    elim (Bool-cases (ltb gc.heap.len end)) [
      | inl full ↦
          let stops : MarkCompact.refused gc need ≡ ok (gc', answer) = rw full at e in
          let (_, _, e) = bind-ok (add64 gc.stats.allocation_failures 1) _ stops in
          ap (λ p. p.0.roots) (sym (ok-inj e))
      | inr room ↦
          let (hp, _, e) = bind-ok (Heap.emplace gc.heap gc.top refs ndata) _ (rw room at e) in
          let (_, _, e) = bind-ok (account gc.stats hp gc.top end) _ e in
          ap (λ p. p.0.roots) (sym (ok-inj e))
    ]

alloc-roots :
    (gc gc' : MarkCompact) (refs ndata : ℕ) (pauses : ℕ × ℕ) (answer : GcResult)
    → MarkCompact.alloc gc refs ndata pauses ≡ ok (gc', answer)
    → gc'.roots ≡ gc.roots
unfolding MarkCompact.alloc
alloc-roots gc gc' refs ndata pauses answer e =
    let (need, _, e) = bind-ok (size_for refs ndata) _ e in
    let worth = ltb gc.thrashing thrash_limit in
    let early = worth && leb gc.threshold gc.top in
    let (gc1, first, e) = bind-ok (if early then MarkCompact.collect gc pauses.0 else ok gc) _ e in
    let (end, _, e) = bind-ok (add32 gc1.top need) _ e in
    let late = ltb gc1.heap.len end && worth in
    let (gc2, second, e) =
      bind-ok (if late then MarkCompact.collect gc1 pauses.1 else ok gc1) _ e in
    bump-roots gc2 gc' need refs ndata answer e
    ∙ maybe_collect-roots late gc1 gc2 pauses.1 second
    ∙ maybe_collect-roots early gc gc1 pauses.0 first

write_field-roots :
    (gc gc' : MarkCompact) (obj i val : ℕ)
    → MarkCompact.write_field gc obj i val ≡ ok gc'
    → gc'.roots ≡ gc.roots
unfolding MarkCompact.write_field
write_field-roots gc gc' obj i val e =
    let (hp, _, e) = bind-ok (Heap.set_field gc.heap obj i val) _ e in
    ap (λ g. g.roots) (sym (ok-inj e))

pub mark_compact-KeepsDepth : KeepsDepth MarkCompact
unfolding mark_compact
mark_compact-KeepsDepth = record {
  roots_set = λ gc r. refl;
  heap_set = λ gc hp. refl;
  alloc =
      λ gc gc' refs ndata answer e. ap Roots.depth (alloc-roots gc gc' refs ndata (0, 0) answer e);
  write_field = λ gc gc' obj i val e. ap Roots.depth (write_field-roots gc gc' obj i val e);
  collect = λ gc gc' e. let bad : panic ≡ ok gc' = sym (collect-panics gc 0) ∙ e in cc;
  pushed = λ gc gc' h e. ap (λ g. Roots.depth g.roots) (sym (ok-inj e));
  popped = λ gc gc' h e. ap (λ g. Roots.depth g.roots) (sym (ok-inj e));
  global_changed = λ gc gc' old new e. ap (λ g. Roots.depth g.roots) (sym (ok-inj e));
}
