-- ===== src/Analysis/Sample.antt =====
-- analysis/mod.rs, PrevSample: what is kept of the previous snapshot.
use rpglot.Prelude.{ℕ, Option, none, some, List, [], ◌∷◌, map}
use rpglot.Prelude.Int.{ℤ, pos, sum_i64}
use rpglot.Prelude.Maps.{Map, map_insert}
use rpglot.Model.System.{SystemCpuInfo, SystemDiskInfo, SystemNetInfo}
use rpglot.Model.Cgroup.{CgroupInfo}
use rpglot.Model.Server.{PgStatDatabaseInfo}
use rpglot.Model.Snapshot.{Snapshot}
use rpglot.Analysis.Blocks.{
  find_block, find_aggregate_cpu, as_disks, as_nets, as_databases, as_cgroup, is_container_snapshot,
  relevant_disks, sum_u64, sum_cpu_ticks,
}

pub record PrevSample : Type 0 where
  pub timestamp : ℤ
  pub cpu_total : ℕ
  pub cpu_idle : ℕ
  pub cpu_iowait : ℕ
  pub cpu_steal : ℕ
  pub disk_rsz : ℕ
  pub disk_wsz : ℕ
  pub disk_rio : ℕ
  pub disk_wio : ℕ
  pub disk_io_ms_per_dev : Map ℕ
  pub disk_read_time_per_dev : Map ℕ
  pub disk_write_time_per_dev : Map ℕ
  pub disk_rio_per_dev : Map ℕ
  pub disk_wio_per_dev : Map ℕ
  pub net_rx_bytes : ℕ
  pub net_tx_bytes : ℕ
  pub pg_xact_commit : ℤ
  pub pg_xact_rollback : ℤ
  pub cgroup_usage_usec : ℕ
  pub cgroup_throttled_usec : ℕ

abbrev empty_sample : ℤ → PrevSample
empty_sample t = record {
  timestamp = t;
  cpu_total = 0;
  cpu_idle = 0;
  cpu_iowait = 0;
  cpu_steal = 0;
  disk_rsz = 0;
  disk_wsz = 0;
  disk_rio = 0;
  disk_wio = 0;
  disk_io_ms_per_dev = [];
  disk_read_time_per_dev = [];
  disk_write_time_per_dev = [];
  disk_rio_per_dev = [];
  disk_wio_per_dev = [];
  net_rx_bytes = 0;
  net_tx_bytes = 0;
  pg_xact_commit = pos 0;
  pg_xact_rollback = pos 0;
  cgroup_usage_usec = 0;
  cgroup_throttled_usec = 0;
}

unfoldable pub with_cpu : PrevSample → Option SystemCpuInfo → PrevSample
with_cpu s none = s
with_cpu s (some cpu) = record s {
  cpu_total = sum_cpu_ticks cpu;
  cpu_idle = cpu.idle;
  cpu_iowait = cpu.iowait;
  cpu_steal = cpu.steal;
}

-- The insertions of one counter of each device.
unfoldable pub per_device : (SystemDiskInfo → ℕ) → List SystemDiskInfo → Map ℕ → Map ℕ
per_device field [] m = m
per_device field (d ∷ disks) m = per_device field disks (map_insert d.device_hash (field d) m)

unfoldable pub with_relevant : PrevSample → List SystemDiskInfo → PrevSample
with_relevant s disks = record s {
  disk_rsz = sum_u64 (λ d. d.rsz) disks;
  disk_wsz = sum_u64 (λ d. d.wsz) disks;
  disk_rio = sum_u64 (λ d. d.rio) disks;
  disk_wio = sum_u64 (λ d. d.wio) disks;
  disk_io_ms_per_dev = per_device (λ d. d.io_ms) disks [];
  disk_read_time_per_dev = per_device (λ d. d.read_time) disks [];
  disk_write_time_per_dev = per_device (λ d. d.write_time) disks [];
  disk_rio_per_dev = per_device (λ d. d.rio) disks [];
  disk_wio_per_dev = per_device (λ d. d.wio) disks [];
}

unfoldable pub with_disks : Snapshot → PrevSample → Option (List SystemDiskInfo) → PrevSample
with_disks snapshot s none = s
with_disks snapshot s (some disks) =
    with_relevant s (relevant_disks (is_container_snapshot snapshot) disks)

unfoldable pub with_nets : PrevSample → Option (List SystemNetInfo) → PrevSample
with_nets s none = s
with_nets s (some nets) = record s {
  net_rx_bytes = sum_u64 (λ n. n.rx_bytes) nets;
  net_tx_bytes = sum_u64 (λ n. n.tx_bytes) nets;
}

unfoldable pub with_databases : PrevSample → Option (List PgStatDatabaseInfo) → PrevSample
with_databases s none = s
with_databases s (some dbs) = record s {
  pg_xact_commit = sum_i64 (map (λ d. d.xact_commit) dbs) (pos 0);
  pg_xact_rollback = sum_i64 (map (λ d. d.xact_rollback) dbs) (pos 0);
}

unfoldable pub with_cgroup : PrevSample → Option CgroupInfo → PrevSample
with_cgroup s none = s
with_cgroup s (some cg) = elim (cg.cpu) [
  | none ↦ s
  | some cpu ↦ record s {
    cgroup_usage_usec = cpu.usage_usec;
    cgroup_throttled_usec = cpu.throttled_usec;
  }
]

-- PrevSample::extract
unfoldable pub extract : Snapshot → PrevSample
extract snapshot =
    let with₁ = with_cpu (empty_sample snapshot.timestamp) (find_aggregate_cpu snapshot) in
    let with₂ = with_disks snapshot with₁ (find_block as_disks snapshot) in
    let with₃ = with_nets with₂ (find_block as_nets snapshot) in
    let with₄ = with_databases with₃ (find_block as_databases snapshot) in
    with_cgroup with₄ (find_block as_cgroup snapshot)
