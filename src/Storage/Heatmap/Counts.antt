-- ===== src/Storage/Heatmap/Counts.antt =====
-- The entries fit into their bytes.
use rpglot.Prelude.{
  ℕ, ◌+◌, ◌-◌, ◌%◌, ◌≤◌, ◌<◌, ◌^◌, ◌≡◌, ◌≢◌, Bool, Option, none, some, List, [], ◌∷◌, String, arith,
}
use rpglot.Prelude.Float.{F64, FloatOps}
use rpglot.Prelude.Result.{ok}
use rpglot.Model.System.{SystemCpuInfo}
use rpglot.Model.Cgroup.{CgroupCpuInfo, CgroupMemoryInfo}
use rpglot.Model.Log.{PgLogEventsInfo, PgLogEventType}
use rpglot.Model.Snapshot.{Snapshot}
use rpglot.Analysis.Blocks.{sum_cpu_ticks}
use rpglot.Analysis.Health.Bounds.{health_score_le}
use rpglot.Storage.Heatmap.{
  count_kind, count_checkpoint_events, count_autovacuum_events, count_slow_query_events,
  count_error_entries_by_severity, count_active_sessions, compute_cpu_pct, compute_cgroup_cpu_pct,
  compute_cgroup_mem_pct, share_x10, extract_system_cpu, extract_cgroup_cpu, extract_cgroup_memory,
}
use rpglot.Storage.Heatmap.Codec.{
  IsEntry, AllEntries, write_heatmap, read_heatmap, read-write_heatmap,
}
use rpglot.Storage.Heatmap.Build.{
  Kept, nothing_kept, kept_of, both, or_zero, delta_time, heatmap_entry, build_loop,
  build_heatmap_from_snapshots,
}

count_kind_lt :
    (test : PgLogEventType → Bool) (legacy : PgLogEventsInfo → ℕ) (s : Snapshot)
    → count_kind test legacy s < 256
unfolding count_kind
count_kind_lt test legacy s = ground arith

count_active_lt : (idle : ℕ) (s : Snapshot) → count_active_sessions idle s < 65536
unfolding count_active_sessions
count_active_lt idle s = ground arith

both_le :
    {A : Type 0} (f : A → A → ℕ) (p c : Option A) → ((a b : A) → f a b ≤ 1000) → both f p c ≤ 1000
unfolding both
both_le f none c h = omega arith
both_le f (some p) none h = omega arith
both_le f (some p) (some c) h = h p c

or_zero_le : {A : Type 0} (f : A → ℕ) (o : Option A) → ((a : A) → f a ≤ 1000) → or_zero f o ≤ 1000
unfolding or_zero
or_zero_le f none h = omega arith
or_zero_le f (some a) h = h a

module _ (ops : FloatOps) (xxh3_64 : String → ℕ) where
  share_x10_le : (part total : ℕ) → share_x10 ops part total ≤ 1000
  unfolding share_x10
  share_x10_le part total = ground arith

  cpu_le : (p c : SystemCpuInfo) → compute_cpu_pct ops p c ≤ 1000
  unfolding compute_cpu_pct
  cpu_le p c = grind (arith, share_x10_le)

  cgroup_cpu_le : (dt : F64) (p c : CgroupCpuInfo) → compute_cgroup_cpu_pct ops p c dt ≤ 1000
  unfolding compute_cgroup_cpu_pct
  cgroup_cpu_le dt p c = ground arith

  cgroup_mem_le : (mem : CgroupMemoryInfo) → compute_cgroup_mem_pct ops mem ≤ 1000
  unfolding compute_cgroup_mem_pct
  cgroup_mem_le mem = grind (arith, share_x10_le)

  -- Every entry is within its types, a share is 1000 at most and the score 100 at most.
  pub heatmap_entry_bounds :
      (kept : Kept) (s : Snapshot)
      → IsEntry (heatmap_entry ops xxh3_64 kept s)
        × ((heatmap_entry ops xxh3_64 kept s).cpu_pct_x10 ≤ 1000)
        × ((heatmap_entry ops xxh3_64 kept s).cgroup_cpu_pct_x10 ≤ 1000)
        × ((heatmap_entry ops xxh3_64 kept s).cgroup_mem_pct_x10 ≤ 1000)
        × ((heatmap_entry ops xxh3_64 kept s).health_score ≤ 100)
  unfolding heatmap_entry count_error_entries_by_severity count_checkpoint_events
      count_autovacuum_events count_slow_query_events
  heatmap_entry_bounds kept s =
      let dt = delta_time ops xxh3_64 kept.prev_timestamp s.timestamp in
      let cpu = both_le (compute_cpu_pct ops) kept.prev_cpu (extract_system_cpu s) cpu_le in
      let cg =
        both_le (λ p c. compute_cgroup_cpu_pct ops p c dt) kept.prev_cgroup_cpu
          (extract_cgroup_cpu s) (cgroup_cpu_le dt) in
      let mem = or_zero_le (compute_cgroup_mem_pct ops) (extract_cgroup_memory s) cgroup_mem_le in
      let score = health_score_le ops (xxh3_64 "active") s kept.prev_sample dt in
      (
        (
          count_active_lt (xxh3_64 "idle") s,
          omega (arith, cpu),
          omega (arith, cg),
          omega (arith, mem),
          ground arith,
          ground arith,
          ground arith,
          count_kind_lt _ _ s,
          count_kind_lt _ _ s,
          count_kind_lt _ _ s,
          omega (arith, score),
        ),
        cpu,
        cg,
        mem,
        score,
      )

  build_loop-entries :
      (kept : Kept) (snapshots : List Snapshot) → AllEntries (build_loop ops xxh3_64 kept snapshots)
  unfolding build_loop
  build_loop-entries kept [] = tt
  build_loop-entries kept (s ∷ snapshots) =
      ((heatmap_entry_bounds kept s).0, build_loop-entries (kept_of s) snapshots)

  -- The sidecar file of any snapshots is read back as the entries that were built of them.
  pub sidecar_back :
      (snapshots : List Snapshot)
      → read_heatmap (write_heatmap (build_heatmap_from_snapshots ops xxh3_64 snapshots))
        ≡ ok (build_heatmap_from_snapshots ops xxh3_64 snapshots)
  unfolding build_heatmap_from_snapshots
  sidecar_back snapshots = read-write_heatmap _ (build_loop-entries nothing_kept snapshots)

  -- Where the idle counter grew by more than all counters together, the busy ticks wrap: the share is of
  -- a number of ticks near 2 ^ 64, and not below the total.
  pub cpu_wraps :
      (prev curr : SystemCpuInfo)
      → sum_cpu_ticks curr - sum_cpu_ticks prev ≢ 0
      → sum_cpu_ticks curr - sum_cpu_ticks prev < curr.idle - prev.idle
      → curr.idle < 2 ^ 64
      → (busy : ℕ) × (compute_cpu_pct ops prev curr
          ≡ share_x10 ops busy (sum_cpu_ticks curr - sum_cpu_ticks prev))
        × (busy + (curr.idle - prev.idle) ≡ 2 ^ 64 + (sum_cpu_ticks curr - sum_cpu_ticks prev))
        × (sum_cpu_ticks curr - sum_cpu_ticks prev < busy)
  unfolding compute_cpu_pct
  cpu_wraps prev curr some_ticks wraps u64 =
      let total = sum_cpu_ticks curr - sum_cpu_ticks prev in
      let idle = curr.idle - prev.idle in
      ((total + 2 ^ 64 - idle) % 2 ^ 64, ground arith, omega arith, omega arith)
