-- ===== src/Tests/Rates.antt =====
-- Statements of which one is missing from a snapshot, or has no time of its own.
use mathlib.Core.Option
use rpglot.Prelude.Int.{◌<ℤ◌}
use rpglot.Rates.Rows.{PgStatementsRates, PgStorePlansRates}
use rpglot.Prelude.{if◌then◌else◌, true, ℕ, ◌≡◌, refl, arith, none, some, List, [], ◌∷◌}
use rpglot.Prelude.Int.{pos, i64_bits, wrap_i64, ◌-ℤ◌}
use rpglot.Prelude.Maps.{map_get, map_insert}
use rpglot.Prelude.Sort.{keep_if}
use rpglot.Model.Snapshot.{Snapshot, pg_stat_statements, pg_store_plans}
use rpglot.Model.Statements.{PgStatStatementsInfo, PgStorePlansInfo}
use rpglot.Analysis.Blocks.{find_block, find_map}
use rpglot.Rates.{initial, di64, df64}
use rpglot.Rates.Rows.{statement_rates, plan_rates, temp_mb}
use rpglot.Rates.Update.{
  pgs, PgsRateState, as_statements, as_plans, elapsed, evict, insert_rows, insert_rates, merge_at,
  merge_rows, now_ts_of, rate_and_merge, start_over, update_merged, update_pgs_rates,
  update_pgp_rates,
}
use rpglot.Rates.Merged.{IsKeyed, IsMerged, Rated, last_row, update_merged-IsMerged}
use rpglot.Rates.Replay.{is_within, replay, replay_capped}
use rpglot.Rates.Stale.{per_second, gap_rates, timeless_rates}
use rpglot.Tests.Floats.{whole_numbers}

abbrev statement_of : ℕ → ℕ → ℕ → PgStatStatementsInfo
statement_of id calls time = record {
  userid = 1;
  dbid = 1;
  queryid = pos id;
  datname_hash = 0;
  usename_hash = 0;
  query_hash = 0;
  calls = pos calls;
  total_exec_time = 0;
  mean_exec_time = 0;
  min_exec_time = 0;
  max_exec_time = 0;
  stddev_exec_time = 0;
  rows = pos 0;
  shared_blks_read = pos 0;
  shared_blks_hit = pos 0;
  shared_blks_written = pos 0;
  shared_blks_dirtied = pos 0;
  local_blks_read = pos 0;
  local_blks_written = pos 0;
  temp_blks_read = pos 0;
  temp_blks_written = pos 0;
  wal_records = pos 0;
  wal_bytes = pos 0;
  total_plan_time = 0;
  collected_at = pos time;
}

abbrev plan_of : ℕ → ℕ → ℕ → PgStorePlansInfo
plan_of id calls time = record {
  stmt_queryid = pos 1;
  planid = pos id;
  plan_hash = 0;
  userid = 1;
  dbid = 1;
  datname_hash = 0;
  usename_hash = 0;
  calls = pos calls;
  total_time = 0;
  mean_time = 0;
  min_time = 0;
  max_time = 0;
  stddev_time = 0;
  rows = pos 0;
  shared_blks_hit = pos 0;
  shared_blks_read = pos 0;
  shared_blks_dirtied = pos 0;
  shared_blks_written = pos 0;
  local_blks_read = pos 0;
  local_blks_written = pos 0;
  temp_blks_read = pos 0;
  temp_blks_written = pos 0;
  blk_read_time = 0;
  blk_write_time = 0;
  first_call = 0;
  last_call = 0;
  collected_at = pos time;
}

abbrev snapshot_of : ℕ → List PgStatStatementsInfo → Snapshot
snapshot_of time rows = record { timestamp = pos time; blocks = pg_stat_statements rows ∷ [] }

-- Statement 7 was seen at 1000.
abbrev begun : PgsRateState
begun = record {
  rates = [];
  prev_sample = (7, statement_of 7 100 1000) ∷ [];
  prev_ts = some (pos 1000);
}

begun-IsKeyed : IsKeyed begun.prev_sample
unfolding map_get
begun-IsKeyed = (refl, tt)

begun-Rated :
    Rated
      (pgs whole_numbers)
      whole_numbers
      605
      begun
      (snapshot_of 1030 (statement_of 7 160 1030 ∷ []))
      (statement_of 7 160 1030)
      []
      (pos 1000)
      (pos 1030)
unfolding find_block find_map as_statements now_ts_of elapsed wrap_i64 ◌-ℤ◌
begun-Rated = record { found = refl; since = refl; now = refl; later = omega arith; near = refl }

update_merged-IsMerged_example :
    IsMerged
      (pgs whole_numbers)
      300
      (elapsed (pgs whole_numbers) whole_numbers (pos 1030) (pos 1000))
      (pos 1030)
      (statement_of 7 160 1030 ∷ [])
      7
      begun
      (update_merged
        (pgs whole_numbers)
        whole_numbers
        605
        300
        begun
        (snapshot_of 1030 (statement_of 7 160 1030 ∷ [])))
update_merged-IsMerged_example =
    update_merged-IsMerged (pgs whole_numbers) whole_numbers 605 300 begun
      (snapshot_of 1030 (statement_of 7 160 1030 ∷ [])) (statement_of 7 160 1030) [] (pos 1000)
      (pos 1030) begun-Rated 7 begun-IsKeyed

abbrev only_other : Snapshot
only_other = snapshot_of 1030 (statement_of 8 5 1030 ∷ [])

abbrev back_again : Snapshot
back_again = snapshot_of 1060 (statement_of 7 400 1060 ∷ [])

gap_first :
    Rated
      (pgs whole_numbers)
      whole_numbers
      605
      begun
      only_other
      (statement_of 8 5 1030)
      []
      (pos 1000)
      (pos 1030)
unfolding find_block find_map as_statements now_ts_of elapsed wrap_i64 ◌-ℤ◌
gap_first = record { found = refl; since = refl; now = refl; later = omega arith; near = refl }

gap_second :
    Rated
      (pgs whole_numbers)
      whole_numbers
      605
      (update_pgs_rates whole_numbers begun only_other)
      back_again
      (statement_of 7 400 1060)
      []
      (pos 1030)
      (pos 1060)
unfolding find_block find_map as_statements now_ts_of elapsed wrap_i64 ◌-ℤ◌ update_pgs_rates
    update_merged merge_rows merge_at rate_and_merge
gap_second = record { found = refl; since = refl; now = refl; later = omega arith; near = refl }

-- 300 calls in 60 seconds are given as 10 calls a second.
gap_rates_example :
    (r : PgStatementsRates) × (map_get 7
        (update_pgs_rates whole_numbers
          (update_pgs_rates whole_numbers begun only_other)
          back_again).rates
      ≡ some r)
    × (r.dt_secs ≡ whole_numbers.of_int (wrap_i64 (pos 1060 -ℤ pos 1030)))
    × (r.calls_s ≡ per_second whole_numbers (pos 1060 -ℤ pos 1030) (pos 400) (pos 100))
    × (r.rows_s ≡ per_second whole_numbers (pos 1060 -ℤ pos 1030) (pos 0) (pos 0))
    × (r.exec_time_ms_s ≡ (
        if whole_numbers.le 0 0
        then some (
            whole_numbers.div
              (whole_numbers.sub 0 0)
              (whole_numbers.of_int (wrap_i64 (pos 1060 -ℤ pos 1030))))
        else none))
    × ((pos 1060 -ℤ pos 1030) <ℤ (pos 1060 -ℤ pos 1000))
unfolding last_row i64_bits map_get wrap_i64 ◌-ℤ◌
gap_rates_example =
    gap_rates whole_numbers begun only_other back_again (statement_of 8 5 1030)
      (statement_of 7 400 1060) [] [] (pos 1000) (pos 1030) (pos 1060) gap_first gap_second 7
      begun-IsKeyed (statement_of 7 100 1000) (statement_of 7 400 1060) refl refl refl refl
      (omega arith)

abbrev timeless : ℕ → ℕ → Snapshot
timeless time calls = snapshot_of time (statement_of 7 calls 0 ∷ [])

timeless_first :
    Rated
      (pgs whole_numbers)
      whole_numbers
      605
      begun
      (timeless 1030 160)
      (statement_of 7 160 0)
      []
      (pos 1000)
      (pos 1030)
unfolding find_block find_map as_statements now_ts_of elapsed wrap_i64 ◌-ℤ◌
timeless_first = record { found = refl; since = refl; now = refl; later = omega arith; near = refl }

timeless_second :
    Rated
      (pgs whole_numbers)
      whole_numbers
      605
      (update_pgs_rates whole_numbers begun (timeless 1030 160))
      (timeless 1060 200)
      (statement_of 7 200 0)
      []
      (pos 1030)
      (pos 1060)
unfolding find_block find_map as_statements now_ts_of elapsed wrap_i64 ◌-ℤ◌ update_pgs_rates
    update_merged merge_rows merge_at rate_and_merge
timeless_second = record {
  found = refl;
  since = refl;
  now = refl;
  later = omega arith;
  near = refl;
}

timeless_rates_example :
    map_get 7
      (update_pgs_rates whole_numbers
        (update_pgs_rates whole_numbers begun (timeless 1030 160))
        (timeless 1060 200)).rates
    ≡ some (record {
      dt_secs = whole_numbers.of_int (wrap_i64 (pos 1060 -ℤ pos 1030));
      calls_s = none;
      rows_s = none;
      exec_time_ms_s = none;
      shared_blks_read_s = none;
      shared_blks_hit_s = none;
      shared_blks_dirtied_s = none;
      shared_blks_written_s = none;
      local_blks_read_s = none;
      local_blks_written_s = none;
      temp_blks_read_s = none;
      temp_blks_written_s = none;
      temp_mb_s = none;
    })
unfolding last_row i64_bits
timeless_rates_example =
    timeless_rates whole_numbers begun (timeless 1030 160) (timeless 1060 200)
      (statement_of 7 160 0) (statement_of 7 200 0) [] [] (pos 1000) (pos 1030) (pos 1060)
      timeless_first timeless_second 7 begun-IsKeyed 1030 (statement_of 7 160 0)
      (statement_of 7 200 0) refl (omega arith) (omega arith) refl refl refl

abbrev both_at : ℕ → ℕ → Snapshot
both_at time calls = record {
  timestamp = pos time;
  blocks =
      pg_stat_statements (statement_of 7 calls time ∷ [])
      ∷ pg_store_plans (plan_of 7 calls time ∷ [])
      ∷ [];
}

abbrev two_samples : List Snapshot
two_samples = both_at 1000 100 ∷ both_at 1030 160 ∷ []

replayed_statement :
    map_get 7 (replay (update_pgs_rates whole_numbers) initial two_samples).rates
    ≡ some (
        statement_rates whole_numbers 30 (some (statement_of 7 100 1000)) (statement_of 7 160 1030))
unfolding find_block find_map as_statements now_ts_of elapsed wrap_i64 ◌-ℤ◌ update_pgs_rates
    update_merged merge_rows merge_at rate_and_merge start_over insert_rows insert_rates evict
    keep_if map_get map_insert i64_bits statement_rates di64 df64 temp_mb
replayed_statement = refl

replayed_plan :
    map_get 7 (replay (update_pgp_rates whole_numbers) initial two_samples).rates
    ≡ some (plan_rates whole_numbers 30 (some (plan_of 7 100 1000)) (plan_of 7 160 1030))
unfolding find_block find_map as_plans now_ts_of elapsed wrap_i64 ◌-ℤ◌ update_pgp_rates
    update_merged merge_rows merge_at rate_and_merge start_over insert_rows insert_rates evict
    keep_if map_get map_insert i64_bits plan_rates di64 df64
replayed_plan = refl

replay_capped_example :
    (is_within whole_numbers 605 (
        Option.map
          (λ (s : PgStatementsRates). s.dt_secs)
          (map_get 7 (replay (update_pgs_rates whole_numbers) initial two_samples).rates))
      ≡ true)
    × (is_within whole_numbers 905 (
          Option.map
            (λ (p : PgStorePlansRates). p.dt_secs)
            (map_get 7 (replay (update_pgp_rates whole_numbers) initial two_samples).rates))
        ≡ true)
replay_capped_example = replay_capped whole_numbers two_samples 7
