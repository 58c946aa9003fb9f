-- ===== src/Rates/Update.antt =====
-- crates/rpglot-core/src/rates.rs: update_pgs_rates, update_pgp_rates, update_pgt_rates and
-- update_pgi_rates. The first two are one text but for the names of types, keys and constants, and so are
-- the last two: a `Sampled` value holds what differs.
use rpglot.Prelude.{ℕ, Bool, Option, none, some, List, [], ◌∷◌, if◌then◌else◌}
use rpglot.Prelude.Int.{ℤ, pos, ◌-ℤ◌, wrap_i64, ltb_ℤ, leb_ℤ, eqb_ℤ, i64_bits}
use rpglot.Prelude.Float.{F64, FloatOps, of_nat}
use rpglot.Prelude.Maps.{Map, map_get, map_insert}
use rpglot.Prelude.Sort.{keep_if}
use rpglot.Model.Statements.{PgStatStatementsInfo, PgStorePlansInfo}
use rpglot.Model.Relations.{PgStatUserTablesInfo, PgStatUserIndexesInfo}
use rpglot.Model.Snapshot.{
  Snapshot, DataBlock, pg_stat_statements, pg_store_plans, pg_stat_user_tables,
  pg_stat_user_indexes,
}
use rpglot.Analysis.Blocks.{find_block}
use rpglot.Rates.{
  RateState, max_rate_dt_secs, max_pgp_rate_dt_secs, max_pgs_stale_secs, max_pgp_stale_secs,
}
use rpglot.Rates.Rows.{
  PgStatementsRates, PgStorePlansRates, PgTablesRates, PgIndexesRates, statement_rates, plan_rates,
  table_rates, index_rates,
}

pub record Sampled (Row Rates : Type 0) : Type 0 where
  pub rows_of : DataBlock → Option (List Row)
  pub key : Row → ℕ
  pub collected_at : Row → ℤ
  pub rates_of : F64 → Option Row → Row → Rates

module _ {Row Rates : Type 0} (table : Sampled Row Rates) where
  -- `for s in rows { prev_sample.insert(key, s.clone()) }`; `collect()` does the same from an empty map.
  unfoldable pub insert_rows : List Row → Map Row → Map Row
  insert_rows [] sample = sample
  insert_rows (row ∷ rows) sample = insert_rows rows (map_insert (table.key row) row sample)

  -- The loop that fills `rates`.
  unfoldable pub insert_rates : F64 → Map Row → List Row → Map Rates → Map Rates
  insert_rates dt sample [] rates = rates
  insert_rates dt sample (row ∷ rows) rates =
      insert_rates dt sample rows
        (map_insert (table.key row) (table.rates_of dt (map_get (table.key row) sample) row) rates)

  unfoldable pub now_ts_of : Snapshot → List Row → ℤ
  now_ts_of snapshot [] = snapshot.timestamp
  now_ts_of snapshot (row ∷ rows) =
      if ltb_ℤ (pos 0) (table.collected_at row) then table.collected_at row else snapshot.timestamp

  -- The first sample, a step back in time and a long gap start over.
  unfoldable pub start_over : ℤ → List Row → RateState Row Rates → RateState Row Rates
  start_over now_ts rows state = record state {
    prev_ts = some now_ts;
    prev_sample = insert_rows rows [];
    rates = [];
  }

  -- `(now_ts - prev_ts) as f64`
  unfoldable pub elapsed : FloatOps → ℤ → ℤ → F64
  elapsed ops now_ts prev_ts = ops.of_int (wrap_i64 (now_ts -ℤ prev_ts))

  abbrev pub is_fresh : ℕ → ℤ → Row → Bool
  is_fresh stale now_ts row = leb_ℤ (wrap_i64 (now_ts -ℤ pos stale)) (table.collected_at row)

  -- `retain(|_, s| s.collected_at >= now_ts - STALE)`
  unfoldable pub evict : ℕ → ℤ → Map Row → Map Row
  evict stale now_ts sample = keep_if (λ entry. is_fresh stale now_ts entry.1) sample

  unfoldable pub rate_and_merge : ℕ → F64 → ℤ → List Row → RateState Row Rates → RateState Row Rates
  rate_and_merge stale dt now_ts rows state = record state {
    rates = insert_rates dt state.prev_sample rows [];
    prev_ts = some now_ts;
    prev_sample = evict stale now_ts (insert_rows rows state.prev_sample);
  }

  unfoldable pub rate_and_replace : F64 → ℤ → List Row → RateState Row Rates → RateState Row Rates
  rate_and_replace dt now_ts rows state = record state {
    rates = insert_rates dt state.prev_sample rows [];
    prev_ts = some now_ts;
    prev_sample = insert_rows rows [];
  }

  -- What update_pgs_rates and update_pgp_rates do with rows, from `let Some(prev_ts)` on.
  unfoldable pub merge_at :
      FloatOps → ℕ → ℕ → ℤ → List Row → Option ℤ → RateState Row Rates → RateState Row Rates
  merge_at ops max_dt stale now_ts rows none state = start_over now_ts rows state
  merge_at ops max_dt stale now_ts rows (some prev_ts) state =
      if eqb_ℤ now_ts prev_ts
      then state
      else if ltb_ℤ now_ts prev_ts
      then start_over now_ts rows state
      else if ops.lt (of_nat ops max_dt) (elapsed ops now_ts prev_ts)
      then start_over now_ts rows state
      else rate_and_merge stale (elapsed ops now_ts prev_ts) now_ts rows state

  unfoldable pub merge_rows :
      FloatOps → ℕ → ℕ → Snapshot → Option (List Row) → RateState Row Rates → RateState Row Rates
  merge_rows ops max_dt stale snapshot none state = record state { rates = [] }
  merge_rows ops max_dt stale snapshot (some []) state = record state { rates = [] }
  merge_rows ops max_dt stale snapshot (some (row ∷ rows)) state =
      merge_at ops max_dt stale (now_ts_of snapshot (row ∷ rows)) (row ∷ rows) state.prev_ts state

  unfoldable pub update_merged :
      FloatOps → ℕ → ℕ → RateState Row Rates → Snapshot → RateState Row Rates
  update_merged ops max_dt stale state snapshot =
      merge_rows ops max_dt stale snapshot (find_block table.rows_of snapshot) state

  -- What update_pgt_rates and update_pgi_rates do with rows, from `let Some(prev_ts)` on.
  unfoldable pub replace_at :
      FloatOps → ℤ → List Row → Option ℤ → RateState Row Rates → RateState Row Rates
  replace_at ops now_ts rows none state = start_over now_ts rows state
  replace_at ops now_ts rows (some prev_ts) state =
      if eqb_ℤ now_ts prev_ts
      then state
      else if ops.le (elapsed ops now_ts prev_ts) (of_nat ops 0)
      then state
      else rate_and_replace (elapsed ops now_ts prev_ts) now_ts rows state

  unfoldable pub replace_rows :
      FloatOps → Snapshot → Option (List Row) → RateState Row Rates → RateState Row Rates
  replace_rows ops snapshot none state = record state { rates = [] }
  replace_rows ops snapshot (some rows) state =
      replace_at ops (now_ts_of snapshot rows) rows state.prev_ts state

  unfoldable pub update_replaced : FloatOps → RateState Row Rates → Snapshot → RateState Row Rates
  update_replaced ops state snapshot =
      replace_rows ops snapshot (find_block table.rows_of snapshot) state

unfoldable pub as_statements : DataBlock → Option (List PgStatStatementsInfo)
as_statements (pg_stat_statements rows) = some rows
as_statements _ = none

unfoldable pub as_plans : DataBlock → Option (List PgStorePlansInfo)
as_plans (pg_store_plans rows) = some rows
as_plans _ = none

unfoldable pub as_tables : DataBlock → Option (List PgStatUserTablesInfo)
as_tables (pg_stat_user_tables rows) = some rows
as_tables _ = none

unfoldable pub as_indexes : DataBlock → Option (List PgStatUserIndexesInfo)
as_indexes (pg_stat_user_indexes rows) = some rows
as_indexes _ = none

abbrev pub pgs : FloatOps → Sampled PgStatStatementsInfo PgStatementsRates
pgs ops = record {
  rows_of = λ block. as_statements block;
  key = λ row. i64_bits row.queryid;
  collected_at = λ row. row.collected_at;
  rates_of = λ dt prev row. statement_rates ops dt prev row;
}

abbrev pub pgp : FloatOps → Sampled PgStorePlansInfo PgStorePlansRates
pgp ops = record {
  rows_of = λ block. as_plans block;
  key = λ row. i64_bits row.planid;
  collected_at = λ row. row.collected_at;
  rates_of = λ dt prev row. plan_rates ops dt prev row;
}

abbrev pub pgt : FloatOps → Sampled PgStatUserTablesInfo PgTablesRates
pgt ops = record {
  rows_of = λ block. as_tables block;
  key = λ row. row.relid;
  collected_at = λ row. row.collected_at;
  rates_of = λ dt prev row. table_rates ops dt prev row;
}

abbrev pub pgi : FloatOps → Sampled PgStatUserIndexesInfo PgIndexesRates
pgi ops = record {
  rows_of = λ block. as_indexes block;
  key = λ row. row.indexrelid;
  collected_at = λ row. row.collected_at;
  rates_of = λ dt prev row. index_rates ops dt prev row;
}

abbrev pub PgsRateState : Type 0
PgsRateState = RateState PgStatStatementsInfo PgStatementsRates

abbrev pub PgpRateState : Type 0
PgpRateState = RateState PgStorePlansInfo PgStorePlansRates

abbrev pub PgtRateState : Type 0
PgtRateState = RateState PgStatUserTablesInfo PgTablesRates

abbrev pub PgiRateState : Type 0
PgiRateState = RateState PgStatUserIndexesInfo PgIndexesRates

unfoldable pub update_pgs_rates : FloatOps → PgsRateState → Snapshot → PgsRateState
update_pgs_rates ops state snapshot =
    update_merged (pgs ops) ops max_rate_dt_secs max_pgs_stale_secs state snapshot

unfoldable pub update_pgp_rates : FloatOps → PgpRateState → Snapshot → PgpRateState
update_pgp_rates ops state snapshot =
    update_merged (pgp ops) ops max_pgp_rate_dt_secs max_pgp_stale_secs state snapshot

unfoldable pub update_pgt_rates : FloatOps → PgtRateState → Snapshot → PgtRateState
update_pgt_rates ops state snapshot = update_replaced (pgt ops) ops state snapshot

unfoldable pub update_pgi_rates : FloatOps → PgiRateState → Snapshot → PgiRateState
update_pgi_rates ops state snapshot = update_replaced (pgi ops) ops state snapshot
