-- ===== src/Storage/Heatmap.antt =====
-- crates/rpglot-core/src/storage/heatmap.rs: a small entry for each snapshot, and its sidecar file.
-- Counters are `u64`s, whose differences wrap as they do in a release build.
pub mod Codec
pub mod Build
pub mod Buckets
pub mod Counts
pub mod Flushed
use rpglot.Prelude.{
  ℕ, ◌+◌, ◌-◌, ◌%◌, ◌^◌, Bool, true, false, not, Option, none, some, List, [], ◌∷◌, ◌==◌, ltb, leb,
  if◌then◌else◌, ◌||◌,
}
use rpglot.Prelude.Int.{ℤ, pos, leb_ℤ, pos_part}
use rpglot.Prelude.Float.{F64, FloatOps, of_nat}
use rpglot.Model.System.{SystemCpuInfo}
use rpglot.Model.Cgroup.{CgroupInfo, CgroupCpuInfo, CgroupMemoryInfo}
use rpglot.Model.Activity.{PgStatActivityInfo}
use rpglot.Model.Log.{
  ErrorCategory, lock, constraint, serialization, resource, data_corruption, system, PgLogEntry,
  PgLogEventsInfo, PgLogEventType, checkpoint_starting, checkpoint_complete, autovacuum,
  autoanalyze, slow_query, PgLogEventEntry,
}
use rpglot.Model.Snapshot.{
  Snapshot, DataBlock, cgroup, pg_log_errors, pg_log_events, pg_log_detailed_events,
  pg_stat_activity,
}
use rpglot.Analysis.Blocks.{find_block, find_aggregate_cpu, sum_cpu_ticks}

pub data ErrorSeverityGroup : Type 0 where
  critical warning info : ErrorSeverityGroup

unfoldable pub severity_for_category : ErrorCategory → ErrorSeverityGroup
severity_for_category lock = info
severity_for_category constraint = info
severity_for_category serialization = info
severity_for_category resource = critical
severity_for_category data_corruption = critical
severity_for_category system = critical
severity_for_category _ = warning

pub record HeatmapEntry : Type 0 where
  pub active_sessions : ℕ
  pub cpu_pct_x10 : ℕ
  pub cgroup_cpu_pct_x10 : ℕ
  pub cgroup_mem_pct_x10 : ℕ
  pub errors_critical : ℕ
  pub errors_warning : ℕ
  pub errors_info : ℕ
  pub checkpoint_count : ℕ
  pub autovacuum_count : ℕ
  pub slow_query_count : ℕ
  pub health_score : ℕ

-- `n.min(bound)`, cast to a type that holds `bound`
abbrev pub at_most : ℕ → ℕ → ℕ
at_most bound n = if ltb bound n then bound else n

unfoldable pub is_checkpoint : PgLogEventType → Bool
is_checkpoint checkpoint_starting = true
is_checkpoint checkpoint_complete = true
is_checkpoint _ = false

unfoldable pub is_autovacuum : PgLogEventType → Bool
is_autovacuum autovacuum = true
is_autovacuum autoanalyze = true
is_autovacuum _ = false

unfoldable pub is_slow_query : PgLogEventType → Bool
is_slow_query slow_query = true
is_slow_query _ = false

-- `filter(…).count()` over the types of the events
unfoldable pub count_events : (PgLogEventType → Bool) → List PgLogEventEntry → ℕ
count_events test [] = 0
count_events test (e ∷ events) = (if test e.event_type then 1 else 0) + count_events test events

abbrev pub as_detailed : DataBlock → Option (List PgLogEventEntry)
as_detailed (pg_log_detailed_events events) = some events
as_detailed _ = none

abbrev pub as_events : DataBlock → Option PgLogEventsInfo
as_events (pg_log_events events) = some events
as_events _ = none

-- The detailed events if there are any, else the counter.
unfoldable pub count_kind : (PgLogEventType → Bool) → (PgLogEventsInfo → ℕ) → Snapshot → ℕ
count_kind test legacy snapshot = elim (find_block as_detailed snapshot) [
  | some events ↦ at_most 255 (count_events test events)
  | none ↦ elim (find_block as_events snapshot) [
    | some counters ↦ at_most 255 (legacy counters)
    | none ↦ 0
  ]
]

unfoldable pub count_checkpoint_events : Snapshot → ℕ
count_checkpoint_events = count_kind is_checkpoint (λ i. i.checkpoint_count)

unfoldable pub count_autovacuum_events : Snapshot → ℕ
count_autovacuum_events = count_kind is_autovacuum (λ i. i.autovacuum_count)

unfoldable pub count_slow_query_events : Snapshot → ℕ
count_slow_query_events = count_kind is_slow_query (λ i. i.slow_query_count)

-- (critical, warning, info), as `u64`s
unfoldable pub add_entry : PgLogEntry → ℕ × ℕ × ℕ → ℕ × ℕ × ℕ
add_entry e (c, w, i) = elim (severity_for_category e.category) [
  | critical ↦ ((c + e.count) % 2 ^ 64, w, i)
  | warning ↦ (c, (w + e.count) % 2 ^ 64, i)
  | info ↦ (c, w, (i + e.count) % 2 ^ 64)
]

unfoldable pub add_entries : List PgLogEntry → ℕ × ℕ × ℕ → ℕ × ℕ × ℕ
add_entries [] sums = sums
add_entries (e ∷ entries) sums = add_entries entries (add_entry e sums)

unfoldable pub sum_errors : List DataBlock → ℕ × ℕ × ℕ → ℕ × ℕ × ℕ
sum_errors [] sums = sums
sum_errors (pg_log_errors entries ∷ blocks) sums = sum_errors blocks (add_entries entries sums)
sum_errors (_ ∷ blocks) sums = sum_errors blocks sums

unfoldable pub count_error_entries_by_severity : Snapshot → ℕ × ℕ × ℕ
count_error_entries_by_severity snapshot =
    let sums = sum_errors snapshot.blocks (0, 0, 0) in
    (at_most 255 sums.0, at_most 255 sums.1, at_most 255 sums.2)

unfoldable pub count_not_idle : ℕ → List PgStatActivityInfo → ℕ
count_not_idle idle [] = 0
count_not_idle idle (r ∷ rows) = (if r.state_hash == idle then 0 else 1) + count_not_idle idle rows

unfoldable pub sum_active : ℕ → List DataBlock → ℕ
sum_active idle [] = 0
sum_active idle (pg_stat_activity rows ∷ blocks) = count_not_idle idle rows + sum_active idle blocks
sum_active idle (_ ∷ blocks) = sum_active idle blocks

unfoldable pub count_active_sessions : ℕ → Snapshot → ℕ
count_active_sessions idle snapshot = at_most 65535 (sum_active idle snapshot.blocks)

abbrev pub as_cgroup_cpu : DataBlock → Option CgroupCpuInfo
as_cgroup_cpu (cgroup cg) = cg.cpu
as_cgroup_cpu _ = none

abbrev pub as_cgroup_memory : DataBlock → Option CgroupMemoryInfo
as_cgroup_memory (cgroup cg) = cg.memory
as_cgroup_memory _ = none

unfoldable pub extract_system_cpu : Snapshot → Option SystemCpuInfo
extract_system_cpu = find_aggregate_cpu

unfoldable pub extract_cgroup_cpu : Snapshot → Option CgroupCpuInfo
extract_cgroup_cpu = find_block as_cgroup_cpu

unfoldable pub extract_cgroup_memory : Snapshot → Option CgroupMemoryInfo
extract_cgroup_memory = find_block as_cgroup_memory

module _ (ops : FloatOps) where
  -- A share of the total, in tenths of a percent
  unfoldable pub share_x10 : ℕ → ℕ → ℕ
  share_x10 part total =
      at_most 1000
        (ops.to_u16 (ops.mul (ops.div (of_nat ops part) (of_nat ops total)) (of_nat ops 1000)))

  -- `total_delta - idle_delta` wraps.
  unfoldable pub compute_cpu_pct : SystemCpuInfo → SystemCpuInfo → ℕ
  compute_cpu_pct prev curr =
      let total_delta = sum_cpu_ticks curr - sum_cpu_ticks prev in
      let idle_delta = curr.idle - prev.idle in
      if total_delta == 0
      then 0
      else share_x10 ((total_delta + 2 ^ 64 - idle_delta) % 2 ^ 64) total_delta

  unfoldable pub compute_cgroup_cpu_pct : CgroupCpuInfo → CgroupCpuInfo → F64 → ℕ
  compute_cgroup_cpu_pct prev curr delta_time_secs =
      let limit_cores = ops.div (ops.of_int curr.quota) (of_nat ops curr.period) in
      let d_usage = ops.div (of_nat ops (curr.usage_usec - prev.usage_usec)) (of_nat ops 1000000) in
      let used_pct =
        ops.mul (ops.div (ops.div d_usage delta_time_secs) limit_cores) (of_nat ops 100) in
      if ops.le delta_time_secs (of_nat ops 0) || (leb_ℤ curr.quota (pos 0) || curr.period == 0)
      then 0
      else if ops.le limit_cores (of_nat ops 0)
      then 0
      else at_most 1000 (ops.to_u16 (ops.mul used_pct (of_nat ops 10)))

  unfoldable pub compute_cgroup_mem_pct : CgroupMemoryInfo → ℕ
  compute_cgroup_mem_pct mem =
      if mem.max == 0 || mem.max == 2 ^ 64 - 1 then 0 else share_x10 mem.current mem.max
