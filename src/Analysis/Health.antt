-- ===== src/Analysis/Health.antt =====
-- analysis/mod.rs, compute_health_score: 100 less the penalties.
pub mod Bounds
use rpglot.Prelude.{
  ℕ, suc, ◌&&◌, ◌+◌, ◌-◌, ◌*◌, ◌/◌, ◌%◌, ◌^◌, Bool, Option, none, some, List, [], ◌∷◌, String,
  length, ◌==◌, leb, ltb, if◌then◌else◌,
}
use rpglot.Prelude.Int.{ℤ, pos, negsuc, pos_part, sub_ℕ, wrap_i32, ◌*ℕ◌}
use rpglot.Prelude.Float.{F64, FloatOps, of_nat}
use rpglot.Model.Activity.{PgStatActivityInfo}
use rpglot.Model.System.{SystemCpuInfo, SystemDiskInfo}
use rpglot.Model.Snapshot.{Snapshot}
use rpglot.Analysis.Blocks.{
  find_block, find_aggregate_cpu, as_activity, as_disks, is_container_snapshot, relevant_disks,
  sum_u64, sum_cpu_ticks,
}
use rpglot.Analysis.Sample.{PrevSample}

pub record HealthBreakdown : Type 0 where
  pub sessions : ℕ
  pub cpu : ℕ
  pub disk_iops : ℕ
  pub disk_bw : ℕ

-- `.clamp(0, 100) as u8` of an `i32`
unfoldable pub clamp_100 : ℤ → ℕ
clamp_100 a = let n = pos_part a in if ltb 100 n then 100 else n

-- `.filter(|s| s.state_hash == hash).count()`
unfoldable pub count_state : ℕ → List PgStatActivityInfo → ℕ
count_state hash [] = 0
count_state hash (s ∷ sessions) =
    (if s.state_hash == hash then 1 else 0) + count_state hash sessions

-- An `i32` division by 2 rounds towards 0.
unfoldable pub half_i32 : ℤ → ℤ
half_i32 (pos n) = pos (n / 2)
half_i32 (negsuc n) = sub_ℕ 0 (suc n / 2)

unfoldable pub sessions_penalty : ℕ → Option (List PgStatActivityInfo) → ℕ
sessions_penalty active_hash none = 0
sessions_penalty active_hash (some sessions) =
    clamp_100 (half_i32 (wrap_i32 (pos (count_state active_hash sessions))))

module _ (ops : FloatOps) where
  -- A percent above 60 each, rounded.
  unfoldable pub cpu_penalty : PrevSample → Option SystemCpuInfo → ℕ
  cpu_penalty p none = 0
  cpu_penalty p (some cpu) =
      let dt_ticks = of_nat ops (sum_cpu_ticks cpu - p.cpu_total) in
      let idle_d = of_nat ops (cpu.idle - p.cpu_idle) in
      let cpu_pct = ops.mul (ops.sub (of_nat ops 1) (ops.div idle_d dt_ticks)) (of_nat ops 100) in
      if ops.lt (of_nat ops 0) dt_ticks && ops.lt (of_nat ops 60) cpu_pct
      then ops.to_u8
          (ops.clamp (ops.round (ops.sub cpu_pct (of_nat ops 60))) (of_nat ops 0) (of_nat ops 100))
      else 0

  -- 5 for each whole `unit` of the rate.
  unfoldable pub rate_penalty : F64 → F64 → ℕ
  rate_penalty rate unit = clamp_100 (wrap_i32 (ops.to_i32 (ops.div rate unit) *ℕ 5))

  -- The operations of both kinds are added as `u64`s.
  unfoldable pub iops_penalty : PrevSample → F64 → List SystemDiskInfo → ℕ
  iops_penalty p dt relevant =
      let d_rio = sum_u64 (λ d. d.rio) relevant - p.disk_rio in
      let d_wio = sum_u64 (λ d. d.wio) relevant - p.disk_wio in
      rate_penalty (ops.div (of_nat ops ((d_rio + d_wio) % 2 ^ 64)) dt) (of_nat ops 1000)

  unfoldable pub bandwidth_penalty : PrevSample → F64 → List SystemDiskInfo → ℕ
  bandwidth_penalty p dt relevant =
      let d_rsz = sum_u64 (λ d. d.rsz) relevant - p.disk_rsz in
      let d_wsz = sum_u64 (λ d. d.wsz) relevant - p.disk_wsz in
      let bw_bytes =
        ops.div (ops.mul (of_nat ops ((d_rsz + d_wsz) % 2 ^ 64)) (of_nat ops 512)) dt in
      let bw_mb = ops.div bw_bytes (ops.mul (of_nat ops 1024) (of_nat ops 1024)) in
      rate_penalty bw_mb (of_nat ops 50)

  unfoldable pub disk_penalties : Bool → PrevSample → F64 → Option (List SystemDiskInfo) → ℕ × ℕ
  disk_penalties is_ctr p dt none = (0, 0)
  disk_penalties is_ctr p dt (some disks) =
      let relevant = relevant_disks is_ctr disks in
      (iops_penalty p dt relevant, bandwidth_penalty p dt relevant)

  -- The penalties that need a previous sample, at `dt` seconds behind it.
  unfoldable pub delta_penalties : Snapshot → Option PrevSample → F64 → ℕ × ℕ × ℕ
  delta_penalties snapshot none dt = (0, 0, 0)
  delta_penalties snapshot (some p) dt =
      let disks =
        disk_penalties (is_container_snapshot snapshot) p dt (find_block as_disks snapshot) in
      if ops.lt (of_nat ops 0) dt
      then (cpu_penalty p (find_aggregate_cpu snapshot), disks.0, disks.1)
      else (0, 0, 0)

  unfoldable pub compute_health_score : ℕ → Snapshot → Option PrevSample → F64 → ℕ × HealthBreakdown
  compute_health_score active_hash snapshot prev dt =
      let sessions = sessions_penalty active_hash (find_block as_activity snapshot) in
      let deltas = delta_penalties snapshot prev dt in
      let total_penalty = sessions + deltas.0 + deltas.1 + deltas.2 in
      (
        clamp_100 (sub_ℕ 100 total_penalty),
        record { sessions = sessions; cpu = deltas.0; disk_iops = deltas.1; disk_bw = deltas.2 },
      )
