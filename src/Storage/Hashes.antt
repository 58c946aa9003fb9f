-- ===== src/Storage/Hashes.antt =====
-- manager.rs, collect_snapshot_hashes. The set is a list, read by `contains`.
pub mod Sets
use rpglot.Prelude.{ℕ, Bool, false, List, [], ◌∷◌, ◌++◌, ◌==◌, ◌||◌}
use rpglot.Model.Activity.{PgLockTreeNode, PgStatActivityInfo}
use rpglot.Model.Process.{ProcessInfo}
use rpglot.Model.Relations.{PgStatUserIndexesInfo, PgStatUserTablesInfo}
use rpglot.Model.Snapshot.{
  Snapshot, DataBlock, processes, system_net, system_disk, system_interrupts, system_softirqs,
  pg_stat_activity, pg_stat_statements, pg_store_plans, pg_stat_database, pg_stat_user_tables,
  pg_stat_user_indexes, pg_stat_progress_vacuum, pg_lock_tree, pg_log_errors, pg_stat_bgwriter,
  system_cpu, system_load, system_mem, system_psi, system_vmstat, system_file, system_stat,
  system_net_snmp, cgroup, pg_log_events, pg_log_detailed_events, pg_settings, replication_status,
}

unfoldable pub contains : List ℕ → ℕ → Bool
contains [] hash = false
contains (h ∷ hashes) hash = h == hash || contains hashes hash

-- The hashes of the items of a block, one after the other.
unfoldable pub insert_each {ℓ} : {A : Type ℓ} → (A → List ℕ) → List A → List ℕ
insert_each f [] = []
insert_each f (a ∷ items) = f a ++ insert_each f items

process_hashes : ProcessInfo → List ℕ
process_hashes p = p.name_hash ∷ p.cmdline_hash ∷ p.cpu.wchan_hash ∷ []

activity_hashes : PgStatActivityInfo → List ℕ
activity_hashes a =
    a.datname_hash ∷ a.usename_hash ∷ a.application_name_hash ∷ a.state_hash ∷ a.query_hash
    ∷ a.wait_event_type_hash ∷ a.wait_event_hash ∷ a.backend_type_hash ∷ []

table_hashes : PgStatUserTablesInfo → List ℕ
table_hashes t = t.datname_hash ∷ t.schemaname_hash ∷ t.relname_hash ∷ t.tablespace_hash ∷ []

user_index_hashes : PgStatUserIndexesInfo → List ℕ
user_index_hashes i =
    i.datname_hash ∷ i.schemaname_hash ∷ i.relname_hash ∷ i.indexrelname_hash ∷ i.tablespace_hash
    ∷ []

lock_hashes : PgLockTreeNode → List ℕ
lock_hashes n =
    n.datname_hash ∷ n.usename_hash ∷ n.state_hash ∷ n.wait_event_type_hash ∷ n.wait_event_hash
    ∷ n.query_hash ∷ n.application_name_hash ∷ n.backend_type_hash ∷ n.lock_type_hash
    ∷ n.lock_mode_hash ∷ n.lock_target_hash ∷ []

unfoldable pub block_hashes : DataBlock → List ℕ
unfolding insert_each process_hashes activity_hashes table_hashes user_index_hashes lock_hashes
block_hashes (processes procs) = insert_each process_hashes procs
block_hashes (system_net nets) = insert_each (λ n. n.name_hash ∷ []) nets
block_hashes (system_disk disks) = insert_each (λ d. d.device_hash ∷ []) disks
block_hashes (system_interrupts intrs) = insert_each (λ i. i.irq_hash ∷ []) intrs
block_hashes (system_softirqs softirqs) = insert_each (λ s. s.name_hash ∷ []) softirqs
block_hashes (pg_stat_activity activities) = insert_each activity_hashes activities
block_hashes (pg_stat_statements stmts) =
    insert_each (λ s. s.query_hash ∷ s.datname_hash ∷ s.usename_hash ∷ []) stmts
block_hashes (pg_store_plans plans) =
    insert_each (λ p. p.plan_hash ∷ p.datname_hash ∷ p.usename_hash ∷ []) plans
block_hashes (pg_stat_database dbs) = insert_each (λ d. d.datname_hash ∷ []) dbs
block_hashes (pg_stat_user_tables tables) = insert_each table_hashes tables
block_hashes (pg_stat_user_indexes indexes) = insert_each user_index_hashes indexes
block_hashes (pg_stat_progress_vacuum vacuums) =
    insert_each (λ v. v.datname_hash ∷ v.phase_hash ∷ []) vacuums
block_hashes (pg_lock_tree nodes) = insert_each lock_hashes nodes
block_hashes (pg_log_errors entries) =
    insert_each (λ e. e.pattern_hash ∷ e.sample_hash ∷ e.statement_hash ∷ []) entries
block_hashes (pg_stat_bgwriter _) = []
block_hashes (system_cpu _) = []
block_hashes (system_load _) = []
block_hashes (system_mem _) = []
block_hashes (system_psi _) = []
block_hashes (system_vmstat _) = []
block_hashes (system_file _) = []
block_hashes (system_stat _) = []
block_hashes (system_net_snmp _) = []
block_hashes (cgroup _) = []
block_hashes (pg_log_events _) = []
block_hashes (pg_log_detailed_events _) = []
block_hashes (pg_settings _) = []
block_hashes (replication_status _) = []

unfoldable pub collect_snapshot_hashes : Snapshot → List ℕ
unfolding insert_each block_hashes
collect_snapshot_hashes s = insert_each block_hashes s.blocks
