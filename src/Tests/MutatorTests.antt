-- ===== src/Tests/MutatorTests.antt =====
-- The mutator of crates/gc-core/src/mutator.rs over the collector of crates/gc-mod05/src/lib.rs.
use gc_united.Base.{◌≡◌, refl, ok, some, [], ◌∷◌}
use gc_united.Roots
use gc_united.Stats.{fresh}
use gc_united.Model
use gc_united.MarkCompact.{MarkCompact}
use gc_united.MarkCompact.Instance.{mark_compact, mark_compact-KeepsDepth}
use gc_united.Mutator
use gc_united.Mutator.{Mutator}
use gc_united.Mutator.Steps.{IsMirrored}
use gc_united.Mutator.Lockstep.{Run, start, step, dup, unwind, Run-IsMirrored}
use gc_united.Verify.{empty_report, root_report}

-- A stack of one root, for the object 1 of the model.
abbrev idle : Mutator MarkCompact
idle = record {
  gc = record {
    heap = record { bytes = λ _. 0; len = 96 };
    roots = record { stack = 0 ∷ []; globals = [] };
    stats = fresh;
    top = 0;
    threshold = 48;
    thrashing = 0;
  };
  model = record { objs = []; stack = some 1 ∷ []; globals = []; next_id = 1; seq = 0 };
}

abbrev doubled : Mutator MarkCompact
doubled = record idle {
  gc = record idle.gc { roots = record { stack = 0 ∷ 0 ∷ []; globals = [] } };
  model = record idle.model { stack = some 1 ∷ some 1 ∷ [] };
}

idle-IsMirrored : IsMirrored idle
unfolding mark_compact Roots.depth Model.root_depth
idle-IsMirrored = refl

dup_run : Mutator.dup idle 0 ≡ ok (doubled, 1)
unfolding mark_compact Mutator.dup Mutator.handle Mutator.id Mutator.push_both Mutator.pushed
    Roots.get Roots.push Model.root Model.push_root
dup_run = refl

unwind_run : Mutator.unwind doubled 1 ≡ ok idle
unfolding mark_compact Mutator.unwind Mutator.pop_all Mutator.popped Roots.unwind Model.unwind
unwind_run = refl

dup_unwind : Run idle idle
dup_unwind = step (step start (dup 0 1 dup_run)) (unwind 1 unwind_run)

Run-IsMirrored_example : IsMirrored idle × (root_report idle.gc idle.model ≡ empty_report)
Run-IsMirrored_example = Run-IsMirrored mark_compact-KeepsDepth idle idle idle-IsMirrored dup_unwind
