-- ===== src/Mutator/Lockstep.antt =====
-- crates/gc-core/src/mutator.rs: the shadow stack of the collector and the mirror of the model.
use Prim.Native.String.{String}
use gc_united.Base.{◌==◌, ==_iff, ℕ, ◌≡◌, refl, true, some, ok}
use gc_united.Roots
use gc_united.Roots.{Roots}
use gc_united.Model
use gc_united.Model.{Model, stamp_bytes, id_off, magic, magic_off}
use gc_united.Collector.{Collector}
use gc_united.Mutator
use gc_united.Mutator.{Mutator}
use gc_united.Mutator.Steps.{
  KeepsDepth, IsMirrored, try_alloc-IsMirrored, store-IsMirrored, store_null-IsMirrored,
  load-IsMirrored, dup-IsMirrored, assign-IsMirrored, unwind-IsMirrored, set_global-IsMirrored,
  global-IsMirrored, clear_global-IsMirrored, write_u64-IsMirrored, collect-IsMirrored,
  forget_unreachable-IsMirrored,
}
use gc_united.Verify.{empty_report, root_report}

module _ {C : Type 0} ⦃c : Collector C⦄ where
  -- One call of the mutator that returns.
  pub data Step (mu mu' : Mutator C) : Type 0 where
    try_alloc :
        (refs extra : ℕ) (answer : Mutator.SlotResult)
        → Mutator.try_alloc mu refs extra ≡ ok (mu', answer)
        → Step mu mu'
    store : (parent i child : ℕ) → Mutator.store mu parent i child ≡ ok mu' → Step mu mu'
    store_null : (parent i : ℕ) → Mutator.store_null mu parent i ≡ ok mu' → Step mu mu'
    load : (parent i slot : ℕ) → Mutator.load mu parent i ≡ ok (mu', slot) → Step mu mu'
    dup : (from slot : ℕ) → Mutator.dup mu from ≡ ok (mu', slot) → Step mu mu'
    assign : (dst src : ℕ) → Mutator.assign mu dst src ≡ ok mu' → Step mu mu'
    unwind : (n : ℕ) → Mutator.unwind mu n ≡ ok mu' → Step mu mu'
    set_global : (name : String) (slot : ℕ) → Mutator.set_global mu name slot ≡ ok mu' → Step mu mu'
    global : (name : String) (slot : ℕ) → Mutator.global mu name ≡ ok (mu', slot) → Step mu mu'
    clear_global : (name : String) → Mutator.clear_global mu name ≡ ok mu' → Step mu mu'
    write_u64 : (slot index v : ℕ) → Mutator.write_u64 mu slot index v ≡ ok mu' → Step mu mu'
    collect : Mutator.collect mu ≡ ok mu' → Step mu mu'
    forget_unreachable : Mutator.forget_unreachable mu ≡ some mu' → Step mu mu'

  pub data Run (mu : Mutator C) : Mutator C → Type 0 where
    start : Run mu mu
    step : {mu' mu'' : Mutator C} → Run mu mu' → Step mu' mu'' → Run mu mu''

  module _ (laws : KeepsDepth C) where
    step-IsMirrored : (mu mu' : Mutator C) → IsMirrored mu → Step mu mu' → IsMirrored mu'
    step-IsMirrored mu mu' same (try_alloc refs extra answer e) =
        try_alloc-IsMirrored laws mu mu' refs extra answer same e
    step-IsMirrored mu mu' same (store parent i child e) =
        store-IsMirrored laws mu mu' same parent i child e
    step-IsMirrored mu mu' same (store_null parent i e) =
        store_null-IsMirrored laws mu mu' same parent i e
    step-IsMirrored mu mu' same (load parent i slot e) =
        load-IsMirrored laws mu mu' same parent i slot e
    step-IsMirrored mu mu' same (dup from slot e) = dup-IsMirrored laws mu mu' same from slot e
    step-IsMirrored mu mu' same (assign dst src e) = assign-IsMirrored laws mu mu' same dst src e
    step-IsMirrored mu mu' same (unwind n e) = unwind-IsMirrored laws mu mu' same n e
    step-IsMirrored mu mu' same (set_global name slot e) =
        set_global-IsMirrored laws mu mu' same name slot e
    step-IsMirrored mu mu' same (global name slot e) =
        global-IsMirrored laws mu mu' same name slot e
    step-IsMirrored mu mu' same (clear_global name e) =
        clear_global-IsMirrored laws mu mu' same name e
    step-IsMirrored mu mu' same (write_u64 slot index v e) =
        write_u64-IsMirrored laws mu mu' same slot index v e
    step-IsMirrored mu mu' same (collect e) = collect-IsMirrored laws mu mu' same e
    step-IsMirrored mu mu' same (forget_unreachable e) =
        forget_unreachable-IsMirrored laws mu mu' same e

    report_empty : (mu : Mutator C) → IsMirrored mu → root_report mu.gc mu.model ≡ empty_report
    unfolding root_report
    report_empty mu same =
        let equal : (Roots.depth (c.roots mu.gc) == Model.root_depth mu.model) ≡ true =
          (==_iff _ _).1 same in
        rw equal refl

    -- Over a collector whose operations neither push nor pop roots: from a mutator whose shadow
    -- stack and whose model are equally deep, every run of calls that return keeps them so. The
    -- verifier then finds no difference between the depths.
    pub Run-IsMirrored :
        (mu mu' : Mutator C)
        → IsMirrored mu
        → Run mu mu'
        → IsMirrored mu' × (root_report mu'.gc mu'.model ≡ empty_report)
    Run-IsMirrored mu mu' same start = (same, report_empty mu same)
    Run-IsMirrored mu mu'' same (step {mu'} before s) =
        let (same', _) = Run-IsMirrored mu mu' same before in
        let same'' = step-IsMirrored mu' mu'' same' s in (same'', report_empty mu'' same'')
