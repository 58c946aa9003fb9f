-- ===== src/Model/Relations.antt =====
-- crates/rpglot-core/src/storage/model/postgres.rs: pg_stat_user_tables and pg_stat_user_indexes.
use rpglot.Prelude.{ℕ}
use rpglot.Prelude.Int.{ℤ}

pub record PgStatUserTablesInfo : Type 0 where
  pub relid : ℕ
  pub datname_hash : ℕ
  pub schemaname_hash : ℕ
  pub relname_hash : ℕ
  pub tablespace_hash : ℕ
  pub seq_scan : ℤ
  pub seq_tup_read : ℤ
  pub idx_scan : ℤ
  pub idx_tup_fetch : ℤ
  pub n_tup_ins : ℤ
  pub n_tup_upd : ℤ
  pub n_tup_del : ℤ
  pub n_tup_hot_upd : ℤ
  pub n_live_tup : ℤ
  pub n_dead_tup : ℤ
  pub vacuum_count : ℤ
  pub autovacuum_count : ℤ
  pub analyze_count : ℤ
  pub autoanalyze_count : ℤ
  pub last_vacuum : ℤ
  pub last_autovacuum : ℤ
  pub last_analyze : ℤ
  pub last_autoanalyze : ℤ
  pub size_bytes : ℤ
  pub heap_blks_read : ℤ
  pub heap_blks_hit : ℤ
  pub idx_blks_read : ℤ
  pub idx_blks_hit : ℤ
  pub toast_blks_read : ℤ
  pub toast_blks_hit : ℤ
  pub tidx_blks_read : ℤ
  pub tidx_blks_hit : ℤ
  pub collected_at : ℤ

pub record PgStatUserIndexesInfo : Type 0 where
  pub indexrelid : ℕ
  pub relid : ℕ
  pub datname_hash : ℕ
  pub schemaname_hash : ℕ
  pub relname_hash : ℕ
  pub indexrelname_hash : ℕ
  pub tablespace_hash : ℕ
  pub idx_scan : ℤ
  pub idx_tup_read : ℤ
  pub idx_tup_fetch : ℤ
  pub size_bytes : ℤ
  pub idx_blks_read : ℤ
  pub idx_blks_hit : ℤ
  pub collected_at : ℤ
