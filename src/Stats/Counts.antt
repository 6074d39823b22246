-- ===== src/Stats/Counts.antt =====
-- crates/gc-core/src/stats.rs: the counters while they fit in `u64`.
use gc_united.Base.{ℕ, ◌+◌, ◌<◌, ◌≡◌, ok, u64_values, add64-ok}
use gc_united.Stats.{GcStats, count_freed}

-- The counters after one more object of `n` bytes.
abbrev pub freed_stats : GcStats → ℕ → GcStats
freed_stats st n = record st {
  objects_freed = st.objects_freed + 1;
  bytes_freed = st.bytes_freed + n;
}

pub count_freed-ok :
    (st : GcStats) (n : ℕ)
    → st.objects_freed + 1 < u64_values
    → st.bytes_freed + n < u64_values
    → count_freed st n ≡ ok (freed_stats st n)
unfolding count_freed
count_freed-ok st n a b = rw (add64-ok st.objects_freed 1 a, add64-ok st.bytes_freed n b)
