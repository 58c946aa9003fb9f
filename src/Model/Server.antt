-- ===== src/Model/Server.antt =====
-- crates/rpglot-core/src/storage/model/postgres.rs: databases, the background writer, replication and settings.
use rpglot.Prelude.{ℕ, String, Bool, Option, List}
use rpglot.Prelude.Int.{ℤ}
use rpglot.Prelude.Float.{F64}

pub record PgStatDatabaseInfo : Type 0 where
  pub datid : ℕ
  pub datname_hash : ℕ
  pub xact_commit : ℤ
  pub xact_rollback : ℤ
  pub blks_read : ℤ
  pub blks_hit : ℤ
  pub tup_returned : ℤ
  pub tup_fetched : ℤ
  pub tup_inserted : ℤ
  pub tup_updated : ℤ
  pub tup_deleted : ℤ
  pub conflicts : ℤ
  pub temp_files : ℤ
  pub temp_bytes : ℤ
  pub deadlocks : ℤ
  pub checksum_failures : ℤ
  pub blk_read_time : F64
  pub blk_write_time : F64
  pub session_time : F64
  pub active_time : F64
  pub idle_in_transaction_time : F64
  pub sessions : ℤ
  pub sessions_abandoned : ℤ
  pub sessions_fatal : ℤ
  pub sessions_killed : ℤ

pub record PgStatBgwriterInfo : Type 0 where
  pub checkpoints_timed : ℤ
  pub checkpoints_req : ℤ
  pub checkpoint_write_time : F64
  pub checkpoint_sync_time : F64
  pub buffers_checkpoint : ℤ
  pub buffers_clean : ℤ
  pub maxwritten_clean : ℤ
  pub buffers_backend : ℤ
  pub buffers_backend_fsync : ℤ
  pub buffers_alloc : ℤ

pub record ReplicaInfo : Type 0 where
  pub client_addr : String
  pub application_name : String
  pub state : String
  pub sync_state : String
  pub replay_lag_bytes : Option ℤ

pub record ReplicationStatus : Type 0 where
  pub is_in_recovery : Bool
  pub replay_lag_s : Option ℤ
  pub connected_replicas : ℕ
  pub replicas : List ReplicaInfo
  pub sender_host : String

pub record PgSettingEntry : Type 0 where
  pub name : String
  pub setting : String
  pub unit : String
