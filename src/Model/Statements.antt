-- ===== src/Model/Statements.antt =====
-- crates/rpglot-core/src/storage/model/postgres.rs: pg_stat_statements and pg_store_plans.
use rpglot.Prelude.{ℕ}
use rpglot.Prelude.Int.{ℤ}
use rpglot.Prelude.Float.{F64}

pub record PgStatStatementsInfo : Type 0 where
  pub userid : ℕ
  pub dbid : ℕ
  pub queryid : ℤ
  pub datname_hash : ℕ
  pub usename_hash : ℕ
  pub query_hash : ℕ
  pub calls : ℤ
  pub total_exec_time : F64
  pub mean_exec_time : F64
  pub min_exec_time : F64
  pub max_exec_time : F64
  pub stddev_exec_time : F64
  pub rows : ℤ
  pub shared_blks_read : ℤ
  pub shared_blks_hit : ℤ
  pub shared_blks_written : ℤ
  pub shared_blks_dirtied : ℤ
  pub local_blks_read : ℤ
  pub local_blks_written : ℤ
  pub temp_blks_read : ℤ
  pub temp_blks_written : ℤ
  pub wal_records : ℤ
  pub wal_bytes : ℤ
  pub total_plan_time : F64
  pub collected_at : ℤ

pub record PgStorePlansInfo : Type 0 where
  pub stmt_queryid : ℤ
  pub planid : ℤ
  pub plan_hash : ℕ
  pub userid : ℕ
  pub dbid : ℕ
  pub datname_hash : ℕ
  pub usename_hash : ℕ
  pub calls : ℤ
  pub total_time : F64
  pub mean_time : F64
  pub min_time : F64
  pub max_time : F64
  pub stddev_time : F64
  pub rows : ℤ
  pub shared_blks_hit : ℤ
  pub shared_blks_read : ℤ
  pub shared_blks_dirtied : ℤ
  pub shared_blks_written : ℤ
  pub local_blks_read : ℤ
  pub local_blks_written : ℤ
  pub temp_blks_read : ℤ
  pub temp_blks_written : ℤ
  pub blk_read_time : F64
  pub blk_write_time : F64
  pub first_call : F64
  pub last_call : F64
  pub collected_at : ℤ
