-- ===== src/Rates/Stale.antt =====
-- crates/rpglot-core/src/rates.rs: two updates of pg_stat_statements, one after the other, and what the
-- merged sample does to the rates of the second.
use rpglot.Prelude.{
  ℕ, ◌<◌, ◌^◌, true, false, none, some, Option, if◌then◌else◌, List, ◌∷◌, ◌≡◌, refl, ◌∙◌, arith,
}
use rpglot.Prelude.Int.{ℤ, pos, ◌-ℤ◌, wrap_i64, leb_ℤ, -ℤ_parts, ◌≤ℤ◌, ◌<ℤ◌}
use rpglot.Rates.{di64, df64, int_per, float_per}
use rpglot.Prelude.Float.{FloatOps, F64}
use rpglot.Prelude.Maps.{map_get}
use rpglot.Model.Snapshot.{Snapshot}
use rpglot.Model.Statements.{PgStatStatementsInfo}
use rpglot.Rates.Rows.{statement_rates, PgStatementsRates}
use rpglot.Rates.Update.{elapsed, pgs, PgsRateState, update_pgs_rates, is_fresh}
use rpglot.Rates.Merged.{IsKeyed, last_row, rate_of, Rated, IsMerged, update_merged-IsMerged}

-- What a counter grew by, over the seconds; none where it fell.
abbrev pub per_second : FloatOps → ℤ → ℤ → ℤ → Option F64
per_second ops secs count before =
    if leb_ℤ before count
    then some (ops.div (ops.of_int (wrap_i64 (count -ℤ before))) (ops.of_int (wrap_i64 secs)))
    else none

int_per-di64 :
    (ops : FloatOps) (secs count before : ℤ)
    → int_per ops (ops.of_int (wrap_i64 secs)) (di64 count before)
      ≡ per_second ops secs count before
unfolding di64
int_per-di64 ops secs count before = ground arith

float_per-df64 :
    (ops : FloatOps) (dt count before : F64)
    → float_per ops dt (df64 ops count before)
      ≡ (if ops.le before count then some (ops.div (ops.sub count before) dt) else none)
unfolding df64
float_per-df64 ops dt count before = ground arith

module _ (ops : FloatOps) (state : PgsRateState) (first second : Snapshot)
    (row new : PgStatStatementsInfo) (rows news : List PgStatStatementsInfo)
    (start middle finish : ℤ) (rated : Rated (pgs ops) ops 605 state first row rows start middle)
    (again : Rated
      (pgs ops)
      ops
      605
      (update_pgs_rates ops state first)
      second
      new
      news
      middle
      finish)
    (k : ℕ) (keyed : IsKeyed state.prev_sample) where
  first-IsMerged :
      IsMerged
        (pgs ops)
        300
        (elapsed (pgs ops) ops middle start)
        middle
        (row ∷ rows)
        k
        state
        (update_pgs_rates ops state first)
  unfolding update_pgs_rates
  first-IsMerged =
      update_merged-IsMerged (pgs ops) ops 605 300 state first row rows start middle rated k keyed

  second-rates :
      map_get k (update_pgs_rates ops (update_pgs_rates ops state first) second).rates
      ≡ rate_of
          (pgs ops)
          (elapsed (pgs ops) ops finish middle)
          (map_get k (update_pgs_rates ops state first).prev_sample)
          (last_row (pgs ops) k (new ∷ news))
  unfolding update_pgs_rates
  second-rates =
      (update_merged-IsMerged (pgs ops) ops 605 300 (update_pgs_rates ops state first) second new
        news middle finish again k first-IsMerged.keyed).rated

  shorter :
      (collected_at : ℤ) → collected_at ≤ℤ start → (finish -ℤ middle) <ℤ (finish -ℤ collected_at)
  shorter collected_at aged =
      omega (arith, rated.later, aged, -ℤ_parts finish middle, -ℤ_parts finish collected_at)

  -- In two updates that compute rates, a statement that the first block leaves out, whose old row is
  -- not stale and no younger than the clock before that block, keeps its old row. The second block's
  -- rates divide what it did since that row by the time between the two blocks: so its calls, rows
  -- and execution time per second, each missing where the counter fell. That time is less than the
  -- time since the row.
  pub gap_rates :
      (old last : PgStatStatementsInfo)
      → map_get k state.prev_sample ≡ some old
      → is_fresh (pgs ops) 300 middle old ≡ true
      → last_row (pgs ops) k (row ∷ rows) ≡ none
      → last_row (pgs ops) k (new ∷ news) ≡ some last
      → old.collected_at ≤ℤ start
      → (r : PgStatementsRates) × (map_get k
            (update_pgs_rates ops (update_pgs_rates ops state first) second).rates
          ≡ some r)
        × (r.dt_secs ≡ ops.of_int (wrap_i64 (finish -ℤ middle)))
        × (r.calls_s ≡ per_second ops (finish -ℤ middle) last.calls old.calls)
        × (r.rows_s ≡ per_second ops (finish -ℤ middle) last.rows old.rows)
        × (r.exec_time_ms_s ≡ (
            if ops.le old.total_exec_time last.total_exec_time
            then some (
                ops.div
                  (ops.sub last.total_exec_time old.total_exec_time)
                  (ops.of_int (wrap_i64 (finish -ℤ middle))))
            else none))
        × ((finish -ℤ middle) <ℤ (finish -ℤ old.collected_at))
  unfolding statement_rates elapsed
  gap_rates old last held fresh absent present aged =
      let kept = first-IsMerged.kept in
      let sample : map_get k (update_pgs_rates ops state first).prev_sample ≡ some old =
        rw kept (rw (absent, held, fresh) refl) in
      (
        statement_rates ops (elapsed (pgs ops) ops finish middle) (some old) last,
        second-rates ∙ (rw (sample, present) refl),
        refl,
        int_per-di64 ops (finish -ℤ middle) last.calls old.calls,
        int_per-di64 ops (finish -ℤ middle) last.rows old.rows,
        float_per-df64 ops (ops.of_int (wrap_i64 (finish -ℤ middle))) last.total_exec_time
            old.total_exec_time,
        shorter old.collected_at aged,
      )

  -- In two updates that compute rates, the first at a time above 300, the rows have no time of their
  -- own: those of the first block go at once, and the second block's rates are all missing though the
  -- statement is in both blocks.
  pub timeless_rates :
      (n : ℕ) (old last : PgStatStatementsInfo)
      → middle ≡ pos n
      → 300 < n
      → n < 2 ^ 63
      → old.collected_at ≡ pos 0
      → last_row (pgs ops) k (row ∷ rows) ≡ some old
      → last_row (pgs ops) k (new ∷ news) ≡ some last
      → map_get k (update_pgs_rates ops (update_pgs_rates ops state first) second).rates
        ≡ some (record {
          dt_secs = ops.of_int (wrap_i64 (finish -ℤ middle));
          calls_s = none;
          rows_s = none;
          exec_time_ms_s = none;
          shared_blks_read_s = none;
          shared_blks_hit_s = none;
          shared_blks_dirtied_s = none;
          shared_blks_written_s = none;
          local_blks_read_s = none;
          local_blks_written_s = none;
          temp_blks_read_s = none;
          temp_blks_written_s = none;
          temp_mb_s = none;
        })
  unfolding statement_rates elapsed wrap_i64 ◌-ℤ◌
  timeless_rates n old last now after bounded timeless present again_present =
      let kept = first-IsMerged.kept in
      let stale : is_fresh (pgs ops) 300 middle old ≡ false = rw (now, timeless) (ground arith) in
      let sample : map_get k (update_pgs_rates ops state first).prev_sample ≡ none =
        rw kept (rw (present, stale) refl) in
      second-rates ∙ (rw (sample, again_present) refl)
