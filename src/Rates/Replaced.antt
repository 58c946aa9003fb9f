-- ===== src/Rates/Replaced.antt =====
-- crates/rpglot-core/src/rates.rs: what update_pgt_rates and update_pgi_rates leave under each key.
use rpglot.Prelude.{ℕ, false, Option, none, some, List, [], ◌≡◌, refl, arith}
use rpglot.Prelude.Int.{ℤ, eqb_ℤ}
use rpglot.Prelude.Float.{F64, FloatOps, of_nat}
use rpglot.Prelude.Maps.{map_get}
use rpglot.Model.Snapshot.{Snapshot}
use rpglot.Analysis.Blocks.{find_block}
use rpglot.Rates.{RateState}
use rpglot.Rates.Update.{
  Sampled, now_ts_of, elapsed, rate_and_replace, replace_at, replace_rows, update_replaced,
}
use rpglot.Rates.Merged.{or_else, last_row, rate_of, get-insert_rows, get-insert_rates}

module _ {Row Rates : Type 0} (table : Sampled Row Rates) where
  -- What holds under a key after an update that computes rates.
  pub record IsReplaced (dt : F64) (now_ts : ℤ) (rows : List Row) (k : ℕ)
      (before after : RateState Row Rates) : Type 0 where
    pub rated :
        map_get k after.rates
        ≡ rate_of table dt (map_get k before.prev_sample) (last_row table k rows)
    pub kept : map_get k after.prev_sample ≡ last_row table k rows
    pub timed : after.prev_ts ≡ some now_ts

  or_else-none : {V : Type 0} (o : Option V) → or_else o none ≡ o
  or_else-none none = refl
  or_else-none (some v) = refl

  rate_and_replace-IsReplaced :
      (dt : F64) (now_ts : ℤ) (rows : List Row) (k : ℕ) (state : RateState Row Rates)
      → IsReplaced dt now_ts rows k state (rate_and_replace table dt now_ts rows state)
  unfolding rate_and_replace map_get
  rate_and_replace-IsReplaced dt now_ts rows k state = record {
    rated = ground (arith, get-insert_rates table k dt state.prev_sample rows []);
    kept = ground (arith, get-insert_rows table k rows []);
    timed = refl;
  }

  module _ (ops : FloatOps) (state : RateState Row Rates) (snapshot : Snapshot) (rows : List Row)
      (prev_ts : ℤ) (found : find_block table.rows_of snapshot ≡ some rows)
      (since : state.prev_ts ≡ some prev_ts)
      (moved : eqb_ℤ (now_ts_of table snapshot rows) prev_ts ≡ false)
      (later : ops.le (elapsed table ops (now_ts_of table snapshot rows) prev_ts) (of_nat ops 0)
        ≡ false) where
    update_replaced-rate_and_replace :
        update_replaced table ops state snapshot
        ≡ rate_and_replace table
            (elapsed table ops (now_ts_of table snapshot rows) prev_ts)
            (now_ts_of table snapshot rows)
            rows
            state
    unfolding update_replaced replace_rows replace_at
    update_replaced-rate_and_replace = rw (found, since, moved, later) refl

    -- The block is the first of its kind, and the time since the last sample is above zero. Then a key of
    -- the block has the rates of its last row against the row that the sample had under the key, and no
    -- other key has rates; the new sample has the block's rows only; and the clock is the block's.
    pub update_replaced-IsReplaced :
        (k : ℕ)
        → IsReplaced
            (elapsed table ops (now_ts_of table snapshot rows) prev_ts)
            (now_ts_of table snapshot rows)
            rows
            k
            state
            (update_replaced table ops state snapshot)
    update_replaced-IsReplaced k = rw update_replaced-rate_and_replace (
        rate_and_replace-IsReplaced (elapsed table ops (now_ts_of table snapshot rows) prev_ts)
          (now_ts_of table snapshot rows) rows k state)
