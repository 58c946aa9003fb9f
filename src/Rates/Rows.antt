-- ===== src/Rates/Rows.antt =====
-- crates/rpglot-core/src/rates.rs and models/mod.rs: the rates of one row against the row that the previous
-- sample has under its key.
use rpglot.Prelude.{Option, none, some}
use rpglot.Prelude.Int.{ℤ, ◌+ℤ◌, wrap_i64}
use rpglot.Prelude.Float.{F64, FloatOps, of_nat}
use rpglot.Model.Statements.{PgStatStatementsInfo, PgStorePlansInfo}
use rpglot.Model.Relations.{PgStatUserTablesInfo, PgStatUserIndexesInfo}
use rpglot.Rates.{di64, df64, int_per, float_per}

-- `((dr + dw) as f64 * 8.0 / 1024.0) / dt`, where both deltas are there.
unfoldable pub temp_mb : FloatOps → F64 → Option ℤ → Option ℤ → Option F64
unfolding wrap_i64 ◌+ℤ◌
temp_mb ops dt none dw = none
temp_mb ops dt (some dr) none = none
temp_mb ops dt (some dr) (some dw) = some (
    ops.div (ops.div (ops.mul (ops.of_int (wrap_i64 (dr +ℤ dw))) (of_nat ops 8)) (of_nat ops 1024))
      dt)

pub record PgStatementsRates : Type 0 where
  pub dt_secs : F64
  pub calls_s : Option F64
  pub rows_s : Option F64
  pub exec_time_ms_s : Option F64
  pub shared_blks_read_s : Option F64
  pub shared_blks_hit_s : Option F64
  pub shared_blks_dirtied_s : Option F64
  pub shared_blks_written_s : Option F64
  pub local_blks_read_s : Option F64
  pub local_blks_written_s : Option F64
  pub temp_blks_read_s : Option F64
  pub temp_blks_written_s : Option F64
  pub temp_mb_s : Option F64

unfoldable pub statement_rates :
    FloatOps → F64 → Option PgStatStatementsInfo → PgStatStatementsInfo → PgStatementsRates
unfolding di64 df64 temp_mb
statement_rates ops dt none row = record {
  dt_secs = dt;
  calls_s = none;
  rows_s = none;
  exec_time_ms_s = none;
  shared_blks_read_s = none;
  shared_blks_hit_s = none;
  shared_blks_dirtied_s = none;
  shared_blks_written_s = none;
  local_blks_read_s = none;
  local_blks_written_s = none;
  temp_blks_read_s = none;
  temp_blks_written_s = none;
  temp_mb_s = none;
}
statement_rates ops dt (some prev) row = record {
  dt_secs = dt;
  calls_s = int_per ops dt (di64 row.calls prev.calls);
  rows_s = int_per ops dt (di64 row.rows prev.rows);
  exec_time_ms_s = float_per ops dt (df64 ops row.total_exec_time prev.total_exec_time);
  shared_blks_read_s = int_per ops dt (di64 row.shared_blks_read prev.shared_blks_read);
  shared_blks_hit_s = int_per ops dt (di64 row.shared_blks_hit prev.shared_blks_hit);
  shared_blks_dirtied_s = int_per ops dt (di64 row.shared_blks_dirtied prev.shared_blks_dirtied);
  shared_blks_written_s = int_per ops dt (di64 row.shared_blks_written prev.shared_blks_written);
  local_blks_read_s = int_per ops dt (di64 row.local_blks_read prev.local_blks_read);
  local_blks_written_s = int_per ops dt (di64 row.local_blks_written prev.local_blks_written);
  temp_blks_read_s = int_per ops dt (di64 row.temp_blks_read prev.temp_blks_read);
  temp_blks_written_s = int_per ops dt (di64 row.temp_blks_written prev.temp_blks_written);
  temp_mb_s =
      temp_mb ops dt (di64 row.temp_blks_read prev.temp_blks_read)
        (di64 row.temp_blks_written prev.temp_blks_written);
}

pub record PgStorePlansRates : Type 0 where
  pub dt_secs : F64
  pub calls_s : Option F64
  pub rows_s : Option F64
  pub exec_time_ms_s : Option F64
  pub shared_blks_read_s : Option F64
  pub shared_blks_hit_s : Option F64
  pub shared_blks_dirtied_s : Option F64
  pub shared_blks_written_s : Option F64
  pub temp_blks_read_s : Option F64
  pub temp_blks_written_s : Option F64

unfoldable pub plan_rates :
    FloatOps → F64 → Option PgStorePlansInfo → PgStorePlansInfo → PgStorePlansRates
unfolding di64 df64
plan_rates ops dt none row = record {
  dt_secs = dt;
  calls_s = none;
  rows_s = none;
  exec_time_ms_s = none;
  shared_blks_read_s = none;
  shared_blks_hit_s = none;
  shared_blks_dirtied_s = none;
  shared_blks_written_s = none;
  temp_blks_read_s = none;
  temp_blks_written_s = none;
}
plan_rates ops dt (some prev) row = record {
  dt_secs = dt;
  calls_s = int_per ops dt (di64 row.calls prev.calls);
  rows_s = int_per ops dt (di64 row.rows prev.rows);
  exec_time_ms_s = float_per ops dt (df64 ops row.total_time prev.total_time);
  shared_blks_read_s = int_per ops dt (di64 row.shared_blks_read prev.shared_blks_read);
  shared_blks_hit_s = int_per ops dt (di64 row.shared_blks_hit prev.shared_blks_hit);
  shared_blks_dirtied_s = int_per ops dt (di64 row.shared_blks_dirtied prev.shared_blks_dirtied);
  shared_blks_written_s = int_per ops dt (di64 row.shared_blks_written prev.shared_blks_written);
  temp_blks_read_s = int_per ops dt (di64 row.temp_blks_read prev.temp_blks_read);
  temp_blks_written_s = int_per ops dt (di64 row.temp_blks_written prev.temp_blks_written);
}

pub record PgTablesRates : Type 0 where
  pub dt_secs : F64
  pub seq_scan_s : Option F64
  pub seq_tup_read_s : Option F64
  pub idx_scan_s : Option F64
  pub idx_tup_fetch_s : Option F64
  pub n_tup_ins_s : Option F64
  pub n_tup_upd_s : Option F64
  pub n_tup_del_s : Option F64
  pub n_tup_hot_upd_s : Option F64
  pub vacuum_count_s : Option F64
  pub autovacuum_count_s : Option F64
  pub heap_blks_read_s : Option F64
  pub heap_blks_hit_s : Option F64
  pub idx_blks_read_s : Option F64
  pub idx_blks_hit_s : Option F64
  pub toast_blks_read_s : Option F64
  pub toast_blks_hit_s : Option F64
  pub tidx_blks_read_s : Option F64
  pub tidx_blks_hit_s : Option F64
  pub analyze_count_s : Option F64
  pub autoanalyze_count_s : Option F64

unfoldable pub table_rates :
    FloatOps → F64 → Option PgStatUserTablesInfo → PgStatUserTablesInfo → PgTablesRates
unfolding di64
table_rates ops dt none row = record {
  dt_secs = dt;
  seq_scan_s = none;
  seq_tup_read_s = none;
  idx_scan_s = none;
  idx_tup_fetch_s = none;
  n_tup_ins_s = none;
  n_tup_upd_s = none;
  n_tup_del_s = none;
  n_tup_hot_upd_s = none;
  vacuum_count_s = none;
  autovacuum_count_s = none;
  heap_blks_read_s = none;
  heap_blks_hit_s = none;
  idx_blks_read_s = none;
  idx_blks_hit_s = none;
  toast_blks_read_s = none;
  toast_blks_hit_s = none;
  tidx_blks_read_s = none;
  tidx_blks_hit_s = none;
  analyze_count_s = none;
  autoanalyze_count_s = none;
}
table_rates ops dt (some prev) row = record {
  dt_secs = dt;
  seq_scan_s = int_per ops dt (di64 row.seq_scan prev.seq_scan);
  seq_tup_read_s = int_per ops dt (di64 row.seq_tup_read prev.seq_tup_read);
  idx_scan_s = int_per ops dt (di64 row.idx_scan prev.idx_scan);
  idx_tup_fetch_s = int_per ops dt (di64 row.idx_tup_fetch prev.idx_tup_fetch);
  n_tup_ins_s = int_per ops dt (di64 row.n_tup_ins prev.n_tup_ins);
  n_tup_upd_s = int_per ops dt (di64 row.n_tup_upd prev.n_tup_upd);
  n_tup_del_s = int_per ops dt (di64 row.n_tup_del prev.n_tup_del);
  n_tup_hot_upd_s = int_per ops dt (di64 row.n_tup_hot_upd prev.n_tup_hot_upd);
  vacuum_count_s = int_per ops dt (di64 row.vacuum_count prev.vacuum_count);
  autovacuum_count_s = int_per ops dt (di64 row.autovacuum_count prev.autovacuum_count);
  heap_blks_read_s = int_per ops dt (di64 row.heap_blks_read prev.heap_blks_read);
  heap_blks_hit_s = int_per ops dt (di64 row.heap_blks_hit prev.heap_blks_hit);
  idx_blks_read_s = int_per ops dt (di64 row.idx_blks_read prev.idx_blks_read);
  idx_blks_hit_s = int_per ops dt (di64 row.idx_blks_hit prev.idx_blks_hit);
  toast_blks_read_s = int_per ops dt (di64 row.toast_blks_read prev.toast_blks_read);
  toast_blks_hit_s = int_per ops dt (di64 row.toast_blks_hit prev.toast_blks_hit);
  tidx_blks_read_s = int_per ops dt (di64 row.tidx_blks_read prev.tidx_blks_read);
  tidx_blks_hit_s = int_per ops dt (di64 row.tidx_blks_hit prev.tidx_blks_hit);
  analyze_count_s = int_per ops dt (di64 row.analyze_count prev.analyze_count);
  autoanalyze_count_s = int_per ops dt (di64 row.autoanalyze_count prev.autoanalyze_count);
}

pub record PgIndexesRates : Type 0 where
  pub dt_secs : F64
  pub idx_scan_s : Option F64
  pub idx_tup_read_s : Option F64
  pub idx_tup_fetch_s : Option F64
  pub idx_blks_read_s : Option F64
  pub idx_blks_hit_s : Option F64

unfoldable pub index_rates :
    FloatOps → F64 → Option PgStatUserIndexesInfo → PgStatUserIndexesInfo → PgIndexesRates
unfolding di64
index_rates ops dt none row = record {
  dt_secs = dt;
  idx_scan_s = none;
  idx_tup_read_s = none;
  idx_tup_fetch_s = none;
  idx_blks_read_s = none;
  idx_blks_hit_s = none;
}
index_rates ops dt (some prev) row = record {
  dt_secs = dt;
  idx_scan_s = int_per ops dt (di64 row.idx_scan prev.idx_scan);
  idx_tup_read_s = int_per ops dt (di64 row.idx_tup_read prev.idx_tup_read);
  idx_tup_fetch_s = int_per ops dt (di64 row.idx_tup_fetch prev.idx_tup_fetch);
  idx_blks_read_s = int_per ops dt (di64 row.idx_blks_read prev.idx_blks_read);
  idx_blks_hit_s = int_per ops dt (di64 row.idx_blks_hit prev.idx_blks_hit);
}
