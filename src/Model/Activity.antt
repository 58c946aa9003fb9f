-- ===== src/Model/Activity.antt =====
-- crates/rpglot-core/src/storage/model/postgres.rs: sessions, locks and running vacuums.
use rpglot.Prelude.{ℕ, String, Bool}
use rpglot.Prelude.Int.{ℤ}
use rpglot.Prelude.Float.{F64}

pub record PgStatActivityInfo : Type 0 where
  pub pid : ℤ
  pub datname_hash : ℕ
  pub usename_hash : ℕ
  pub application_name_hash : ℕ
  pub client_addr : String
  pub state_hash : ℕ
  pub query_hash : ℕ
  pub query_id : ℤ
  pub wait_event_type_hash : ℕ
  pub wait_event_hash : ℕ
  pub backend_type_hash : ℕ
  pub backend_start : F64
  pub xact_start : F64
  pub query_start : F64
  pub collected_at : F64

pub record PgLockTreeNode : Type 0 where
  pub pid : ℤ
  pub depth : ℤ
  pub root_pid : ℤ
  pub datname_hash : ℕ
  pub usename_hash : ℕ
  pub state_hash : ℕ
  pub wait_event_type_hash : ℕ
  pub wait_event_hash : ℕ
  pub query_hash : ℕ
  pub application_name_hash : ℕ
  pub backend_type_hash : ℕ
  pub xact_start : F64
  pub query_start : F64
  pub state_change : F64
  pub lock_type_hash : ℕ
  pub lock_mode_hash : ℕ
  pub lock_granted : Bool
  pub lock_target_hash : ℕ

pub record PgStatProgressVacuumInfo : Type 0 where
  pub pid : ℤ
  pub datname_hash : ℕ
  pub relid : ℤ
  pub phase_hash : ℕ
  pub heap_blks_total : ℤ
  pub heap_blks_scanned : ℤ
  pub heap_blks_vacuumed : ℤ
  pub index_vacuum_count : ℤ
  pub max_dead_tuples : ℤ
  pub num_dead_tuples : ℤ
  pub dead_tuple_bytes : ℤ
  pub indexes_total : ℤ
  pub indexes_processed : ℤ
