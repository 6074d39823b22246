-- ===== src/Tests/VerifyTests.antt =====
-- The verifier of crates/gc-core/src/verify.rs over the collector of crates/gc-mod05/src/lib.rs.
use gc_united.Base.{◌+◌, ◌*◌, ◌≢◌, ok, some, none, [], ◌∷◌}
use gc_united.Stats.{fresh}
use gc_united.Model.{Model}
use gc_united.MarkCompact.{MarkCompact}
use gc_united.MarkCompact.Instance.{mark_compact}
use gc_united.Verify.{Walk, empty_report, root_slot, walk_queue}
use gc_united.Verify.Ends.{walk_queue-ends}

abbrev blank : MarkCompact
blank = record {
  heap = record { bytes = λ _. 0; len = 96 };
  roots = record { stack = 0 ∷ []; globals = [] };
  stats = fresh;
  top = 0;
  threshold = 48;
  thrashing = 0;
}

abbrev one_known : Model
one_known = record { objs = []; stack = some 1 ∷ []; globals = []; next_id = 2; seq = 0 }

-- The one root is in the queue.
abbrev queued : Walk
queued = record {
  report = empty_report;
  id_at = [];
  visited = [];
  queue = (0, root_slot 0, some 1) ∷ [];
}

walk_queue-ends_example : walk_queue (1 + 96 * 96) blank one_known queued ≢ ok none
unfolding mark_compact
walk_queue-ends_example = walk_queue-ends blank one_known queued
