-- ===== src/Model/Log.antt =====
-- crates/rpglot-core/src/storage/model/postgres.rs: entries of the PostgreSQL log.
use rpglot.Prelude.{ℕ, String}
use rpglot.Prelude.Int.{ℤ}
use rpglot.Prelude.Float.{F64}

pub data PgLogSeverity : Type 0 where
  error fatal panic : PgLogSeverity

pub data ErrorCategory : Type 0 where
  lock constraint serialization timeout connection auth syntax resource data_corruption system
        other :
      ErrorCategory

pub record PgLogEntry : Type 0 where
  pub pattern_hash : ℕ
  pub severity : PgLogSeverity
  pub count : ℕ
  pub sample_hash : ℕ
  pub statement_hash : ℕ
  pub category : ErrorCategory

pub record PgLogEventsInfo : Type 0 where
  pub checkpoint_count : ℕ
  pub autovacuum_count : ℕ
  pub slow_query_count : ℕ

pub data PgLogEventType : Type 0 where
  checkpoint_starting checkpoint_complete autovacuum autoanalyze slow_query : PgLogEventType

pub record PgLogEventEntry : Type 0 where
  pub event_type : PgLogEventType
  pub message : String
  pub table_name : String
  pub elapsed_s : F64
  pub extra_num1 : ℤ
  pub extra_num2 : ℤ
  pub buffer_hits : ℤ
  pub buffer_misses : ℤ
  pub buffer_dirtied : ℤ
  pub avg_read_rate_mbs : F64
  pub avg_write_rate_mbs : F64
  pub cpu_user_s : F64
  pub cpu_system_s : F64
  pub wal_records : ℤ
  pub wal_fpi : ℤ
  pub wal_bytes : ℤ
  pub extra_num3 : ℤ
  pub count : ℕ
