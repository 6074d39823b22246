-- ===== src/Stats.antt =====
-- crates/gc-core/src/stats.rs and crates/gc-core/src/collector.rs: the counters and the error that
-- the collectors share. A duration is a number of nanoseconds, measured outside the model.
pub mod Counts
use gc_united.Base.{ℕ, ◌+◌, if◌then◌else◌, ltb, Exec, ok, ◌>>=◌, add64}
use gc_united.Heap
use gc_united.Heap.{Heap, Handle}

pub record GcStats : Type 0 where
  pub allocations : ℕ
  pub bytes_allocated : ℕ
  pub allocation_failures : ℕ
  pub collections : ℕ
  pub minor_collections : ℕ
  pub major_collections : ℕ
  pub objects_freed : ℕ
  pub bytes_freed : ℕ
  pub objects_marked : ℕ
  pub objects_copied : ℕ
  pub objects_promoted : ℕ
  pub barrier_hits : ℕ
  pub remembered_entries : ℕ
  pub increments : ℕ
  pub peak_used_bytes : ℕ
  pub gc_time : ℕ
  pub max_pause : ℕ

abbrev pub fresh : GcStats
fresh = record {
  allocations = 0;
  bytes_allocated = 0;
  allocation_failures = 0;
  collections = 0;
  minor_collections = 0;
  major_collections = 0;
  objects_freed = 0;
  bytes_freed = 0;
  objects_marked = 0;
  objects_copied = 0;
  objects_promoted = 0;
  barrier_hits = 0;
  remembered_entries = 0;
  increments = 0;
  peak_used_bytes = 0;
  gc_time = 0;
  max_pause = 0;
}

unfoldable pub record_pause : GcStats → ℕ → GcStats
record_pause st d = record st {
  gc_time = st.gc_time + d;
  max_pause = if ltb st.max_pause d then d else st.max_pause;
}

unfoldable pub observe_used : GcStats → ℕ → GcStats
observe_used st used =
    if ltb st.peak_used_bytes used then record st { peak_used_bytes = used } else st

-- `Result<Handle, GcError>`
pub data GcResult : Type 0 where
  allocated : Handle → GcResult
  out_of_memory : (requested used capacity : ℕ) → GcResult

-- The counters of a successful allocation, as each collector keeps them.
unfoldable pub account : GcStats → Heap → Handle → ℕ → Exec GcStats
unfolding observe_used
account st hp h used = do
  n ← Heap.size hp h
  allocations ← add64 st.allocations 1
  bytes ← add64 st.bytes_allocated n
  ok (observe_used (record st { allocations = allocations; bytes_allocated = bytes }) used)

-- One more object of `n` bytes reclaimed.
unfoldable pub count_freed : GcStats → ℕ → Exec GcStats
count_freed st n = do
  objects ← add64 st.objects_freed 1
  bytes ← add64 st.bytes_freed n
  ok (record st { objects_freed = objects; bytes_freed = bytes })

-- One more collection of the whole heap, which paused the program for `elapsed`.
unfoldable pub count_major : GcStats → ℕ → Exec GcStats
unfolding record_pause
count_major st elapsed = do
  collections ← add64 st.collections 1
  major ← add64 st.major_collections 1
  ok (record_pause (record st { collections = collections; major_collections = major }) elapsed)
