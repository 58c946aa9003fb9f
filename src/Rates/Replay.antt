-- ===== src/Rates/Replay.antt =====
-- crates/rpglot-core/src/rates.rs: the states that a run of snapshots leads to.
use rpglot.Prelude.{
  ℕ, Bool, true, false, not, Option, none, some, List, [], ◌∷◌, ◌≡◌, refl, sym, ◌∙◌, arith, inl,
  inr, Bool-cases,
}
use mathlib.Core.Option
use rpglot.Prelude.Int.{ℤ, eqb_ℤ, ltb_ℤ}
use rpglot.Prelude.Float.{F64, FloatOps, of_nat}
use rpglot.Prelude.Maps.{map_get}
use rpglot.Model.Statements.{PgStatStatementsInfo, PgStorePlansInfo}
use rpglot.Model.Snapshot.{Snapshot}
use rpglot.Analysis.Blocks.{find_block}
use rpglot.Rates.{RateState, initial}
use rpglot.Rates.Rows.{PgStatementsRates, PgStorePlansRates, statement_rates, plan_rates}
use rpglot.Rates.Update.{
  Sampled, start_over, rate_and_merge, merge_at, merge_rows, update_merged, elapsed, now_ts_of, pgs,
  pgp, update_pgs_rates, update_pgp_rates,
}
use rpglot.Rates.Merged.{or_else, last_row, rate_of, get-insert_rates}

-- One update for each snapshot, in their order.
abbrev pub replay : {State : Type 0} → (State → Snapshot → State) → State → List Snapshot → State
replay update state [] = state
replay update state (snapshot ∷ snapshots) = replay update (update state snapshot) snapshots

module _ {Row Rates : Type 0} (table : Sampled Row Rates) (dt_of : Rates → F64)
    (given : (dt : F64) (prev : Option Row) (row : Row) → dt_of (table.rates_of dt prev row) ≡ dt)
    (ops : FloatOps) (max_dt stale : ℕ) where
  abbrev IsCapped : RateState Row Rates → Type 0
  IsCapped state =
      (k : ℕ) (r : Rates)
      → map_get k state.rates ≡ some r
      → ops.lt (of_nat ops max_dt) (dt_of r) ≡ false

  rate_of-dt :
      (dt : F64) (prev last : Option Row) (r : Rates)
      → or_else (rate_of table dt prev last) none ≡ some r
      → dt_of r ≡ dt
  rate_of-dt dt prev none r h = cc
  rate_of-dt dt prev (some row) r h = ground (arith, given dt prev row)

  rate_and_merge-IsCapped :
      (dt : F64) (now_ts : ℤ) (rows : List Row) (state : RateState Row Rates)
      → ops.lt (of_nat ops max_dt) dt ≡ false
      → IsCapped (rate_and_merge table stale dt now_ts rows state)
  unfolding rate_and_merge map_get
  rate_and_merge-IsCapped dt now_ts rows state near k r found =
      let same =
        rate_of-dt dt (map_get k state.prev_sample) (last_row table k rows) r
          (sym (get-insert_rates table k dt state.prev_sample rows []) ∙ found) in
      rw same near

  start_over-IsCapped :
      (now_ts : ℤ) (rows : List Row) (state : RateState Row Rates)
      → IsCapped (start_over table now_ts rows state)
  unfolding start_over map_get
  start_over-IsCapped now_ts rows state k r found = cc

  merge_at-IsCapped :
      (now_ts : ℤ) (rows : List Row) (since : Option ℤ) (state : RateState Row Rates)
      → IsCapped state
      → IsCapped (merge_at table ops max_dt stale now_ts rows since state)
  unfolding merge_at
  merge_at-IsCapped now_ts rows none state capped = start_over-IsCapped now_ts rows state
  merge_at-IsCapped now_ts rows (some prev_ts) state capped =
      elim (Bool-cases (eqb_ℤ now_ts prev_ts)) [
        | inl same ↦ rw same capped
        | inr moved ↦ elim (Bool-cases (ltb_ℤ now_ts prev_ts)) [
          | inl back ↦ rw (moved, back) (start_over-IsCapped now_ts rows state)
          | inr on ↦
              elim (Bool-cases (ops.lt (of_nat ops max_dt) (elapsed table ops now_ts prev_ts))) [
                | inl far ↦ rw (moved, on, far) (start_over-IsCapped now_ts rows state)
                | inr near ↦
                    rw (moved, on, near)
                      (rate_and_merge-IsCapped (elapsed table ops now_ts prev_ts) now_ts rows state
                        near)
              ]
        ]
      ]

  merge_rows-IsCapped :
      (snapshot : Snapshot) (block : Option (List Row)) (state : RateState Row Rates)
      → IsCapped state
      → IsCapped (merge_rows table ops max_dt stale snapshot block state)
  unfolding merge_rows map_get
  merge_rows-IsCapped snapshot none state capped k r found = cc
  merge_rows-IsCapped snapshot (some []) state capped k r found = cc
  merge_rows-IsCapped snapshot (some (row ∷ rows)) state capped k r found =
      merge_at-IsCapped (now_ts_of table snapshot (row ∷ rows)) (row ∷ rows) state.prev_ts state
        capped k r found

  replay-IsCapped :
      (snapshots : List Snapshot) (state : RateState Row Rates)
      → IsCapped state
      → IsCapped (replay (update_merged table ops max_dt stale) state snapshots)
  unfolding update_merged
  replay-IsCapped [] state capped = capped
  replay-IsCapped (snapshot ∷ snapshots) state capped =
      replay-IsCapped snapshots (update_merged table ops max_dt stale state snapshot)
        (merge_rows-IsCapped snapshot (find_block table.rows_of snapshot) state capped)

pgs_given :
    (ops : FloatOps) (dt : F64) (prev : Option PgStatStatementsInfo) (row : PgStatStatementsInfo)
    → (statement_rates ops dt prev row).dt_secs ≡ dt
unfolding statement_rates
pgs_given ops dt none row = refl
pgs_given ops dt (some prev) row = refl

pgp_given :
    (ops : FloatOps) (dt : F64) (prev : Option PgStorePlansInfo) (row : PgStorePlansInfo)
    → (plan_rates ops dt prev row).dt_secs ≡ dt
unfolding plan_rates
pgp_given ops dt none row = refl
pgp_given ops dt (some prev) row = refl

-- No rates, or rates over a time that is no longer than the cap.
abbrev pub is_within : FloatOps → ℕ → Option F64 → Bool
is_within ops cap none = true
is_within ops cap (some dt_secs) = not (ops.lt (of_nat ops cap) dt_secs)

is_within-map :
    {Rates : Type 0} (ops : FloatOps) (cap : ℕ) (dt_of : Rates → F64) (found : Option Rates)
    → ((r : Rates) → found ≡ some r → ops.lt (of_nat ops cap) (dt_of r) ≡ false)
    → is_within ops cap (Option.map dt_of found) ≡ true
is_within-map ops cap dt_of none capped = refl
is_within-map ops cap dt_of (some r) capped = rw (capped r refl) refl

-- Whatever snapshots come, in whatever order: where a statement has rates, they are over 605 seconds at
-- most, and where a plan has rates, over 905.
pub replay_capped :
    (ops : FloatOps) (snapshots : List Snapshot) (k : ℕ)
    → (is_within ops 605 (
          Option.map
            (λ (s : PgStatementsRates). s.dt_secs)
            (map_get k (replay (update_pgs_rates ops) initial snapshots).rates))
        ≡ true)
      × (is_within ops 905 (
            Option.map
              (λ (p : PgStorePlansRates). p.dt_secs)
              (map_get k (replay (update_pgp_rates ops) initial snapshots).rates))
          ≡ true)
unfolding update_pgs_rates update_pgp_rates map_get
replay_capped ops snapshots k = (
  is_within-map ops 605 (λ s. s.dt_secs) _
      (λ s h.
        replay-IsCapped (pgs ops) (λ r. r.dt_secs) (pgs_given ops) ops 605 300 snapshots initial
          (λ j r h. cc) k s h),
  is_within-map ops 905 (λ p. p.dt_secs) _
      (λ p h.
        replay-IsCapped (pgp ops) (λ r. r.dt_secs) (pgp_given ops) ops 905 900 snapshots initial
          (λ j r h. cc) k p h),
)
