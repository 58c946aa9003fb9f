-- ===== src/Model/Snapshot.antt =====
-- crates/rpglot-core/src/storage/model/snapshot.rs: a snapshot and its blocks.
use rpglot.Prelude.{List}
use rpglot.Prelude.Int.{ℤ}
use rpglot.Model.Activity.{PgLockTreeNode, PgStatActivityInfo, PgStatProgressVacuumInfo}
use rpglot.Model.Cgroup.{CgroupInfo}
use rpglot.Model.Log.{PgLogEntry, PgLogEventEntry, PgLogEventsInfo}
use rpglot.Model.Process.{ProcessInfo}
use rpglot.Model.Relations.{PgStatUserIndexesInfo, PgStatUserTablesInfo}
use rpglot.Model.Server.{PgSettingEntry, PgStatBgwriterInfo, PgStatDatabaseInfo, ReplicationStatus}
use rpglot.Model.Statements.{PgStatStatementsInfo, PgStorePlansInfo}
use rpglot.Model.System.{
  SystemCpuInfo, SystemDiskInfo, SystemFileInfo, SystemInterruptInfo, SystemLoadInfo, SystemMemInfo,
  SystemNetInfo, SystemNetSnmpInfo, SystemPsiInfo, SystemSoftirqInfo, SystemStatInfo,
  SystemVmstatInfo,
}

pub data DataBlock : Type 0 where
  processes : List ProcessInfo → DataBlock
  pg_stat_activity : List PgStatActivityInfo → DataBlock
  pg_stat_statements : List PgStatStatementsInfo → DataBlock
  pg_store_plans : List PgStorePlansInfo → DataBlock
  pg_stat_database : List PgStatDatabaseInfo → DataBlock
  pg_stat_user_tables : List PgStatUserTablesInfo → DataBlock
  pg_stat_user_indexes : List PgStatUserIndexesInfo → DataBlock
  pg_lock_tree : List PgLockTreeNode → DataBlock
  pg_stat_bgwriter : PgStatBgwriterInfo → DataBlock
  system_cpu : List SystemCpuInfo → DataBlock
  system_load : SystemLoadInfo → DataBlock
  system_mem : SystemMemInfo → DataBlock
  system_net : List SystemNetInfo → DataBlock
  system_disk : List SystemDiskInfo → DataBlock
  system_psi : List SystemPsiInfo → DataBlock
  system_vmstat : SystemVmstatInfo → DataBlock
  system_file : SystemFileInfo → DataBlock
  system_interrupts : List SystemInterruptInfo → DataBlock
  system_softirqs : List SystemSoftirqInfo → DataBlock
  system_stat : SystemStatInfo → DataBlock
  system_net_snmp : SystemNetSnmpInfo → DataBlock
  cgroup : CgroupInfo → DataBlock
  pg_log_errors : List PgLogEntry → DataBlock
  pg_log_events : PgLogEventsInfo → DataBlock
  pg_log_detailed_events : List PgLogEventEntry → DataBlock
  pg_settings : List PgSettingEntry → DataBlock
  pg_stat_progress_vacuum : List PgStatProgressVacuumInfo → DataBlock
  replication_status : ReplicationStatus → DataBlock

pub record Snapshot : Type 0 where
  pub timestamp : ℤ
  pub blocks : List DataBlock
