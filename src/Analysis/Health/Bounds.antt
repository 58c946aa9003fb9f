-- ===== src/Analysis/Health/Bounds.antt =====
-- The range of the health score.
use rpglot.Prelude.{ℕ, ◌+◌, ◌-◌, ◌≤◌, ◌≡◌, Bool, Option, none, some, List, arith}
use rpglot.Prelude.Int.{ℤ}
use rpglot.Prelude.Float.{F64, FloatOps}
use rpglot.Model.Activity.{PgStatActivityInfo}
use rpglot.Model.System.{SystemCpuInfo, SystemDiskInfo}
use rpglot.Model.Snapshot.{Snapshot}
use rpglot.Analysis.Blocks.{
  find_block, find_aggregate_cpu, as_activity, as_disks, is_container_snapshot,
}
use rpglot.Analysis.Sample.{PrevSample}
use rpglot.Analysis.Health.{
  clamp_100, sessions_penalty, cpu_penalty, rate_penalty, iops_penalty, bandwidth_penalty,
  disk_penalties, delta_penalties, compute_health_score,
}

clamp_100_le : (a : ℤ) → clamp_100 a ≤ 100
unfolding clamp_100
clamp_100_le a = ground arith

sessions_penalty_le :
    (hash : ℕ) (rows : Option (List PgStatActivityInfo)) → sessions_penalty hash rows ≤ 100
unfolding sessions_penalty
sessions_penalty_le hash none = omega arith
sessions_penalty_le hash (some rows) = clamp_100_le _

module _ (ops : FloatOps) where
  cpu_penalty_le : (p : PrevSample) (cpu : Option SystemCpuInfo) → cpu_penalty ops p cpu ≤ 100
  unfolding cpu_penalty
  cpu_penalty_le p none = omega arith
  cpu_penalty_le p (some cpu) = grind (arith, ops.to_u8-clamp)

  disk_penalties_le :
      (is_ctr : Bool) (p : PrevSample) (dt : F64) (disks : Option (List SystemDiskInfo))
      → ((disk_penalties ops is_ctr p dt disks).0 ≤ 100)
        × ((disk_penalties ops is_ctr p dt disks).1 ≤ 100)
  unfolding disk_penalties iops_penalty bandwidth_penalty rate_penalty
  disk_penalties_le is_ctr p dt none = omega arith
  disk_penalties_le is_ctr p dt (some disks) = (clamp_100_le _, clamp_100_le _)

  delta_penalties_le :
      (snapshot : Snapshot) (prev : Option PrevSample) (dt : F64)
      → ((delta_penalties ops snapshot prev dt).0 ≤ 100)
        × ((delta_penalties ops snapshot prev dt).1 ≤ 100)
        × ((delta_penalties ops snapshot prev dt).2 ≤ 100)
  unfolding delta_penalties
  delta_penalties_le snapshot none dt = omega arith
  delta_penalties_le snapshot (some p) dt = ground (
    arith,
    cpu_penalty_le p (find_aggregate_cpu snapshot),
    disk_penalties_le (is_container_snapshot snapshot) p dt (find_block as_disks snapshot),
  )

  -- The score is 100 less the sum of the four penalties, or 0 where the sum is above 100, and no penalty
  -- is above 100.
  pub health_penalties :
      (active_hash : ℕ) (snapshot : Snapshot) (prev : Option PrevSample) (dt : F64)
      → let r = compute_health_score ops active_hash snapshot prev dt in
        (r.0 ≡ 100 - (r.1.sessions + r.1.cpu + r.1.disk_iops + r.1.disk_bw))
        × (r.1.sessions ≤ 100)
        × (r.1.cpu ≤ 100)
        × (r.1.disk_iops ≤ 100)
        × (r.1.disk_bw ≤ 100)
  unfolding compute_health_score clamp_100
  health_penalties active_hash snapshot prev dt = ground (
    arith,
    sessions_penalty_le active_hash (find_block as_activity snapshot),
    delta_penalties_le snapshot prev dt,
  )

  pub health_score_le :
      (active_hash : ℕ) (snapshot : Snapshot) (prev : Option PrevSample) (dt : F64)
      → (compute_health_score ops active_hash snapshot prev dt).0 ≤ 100
  unfolding compute_health_score
  health_score_le active_hash snapshot prev dt = clamp_100_le _
