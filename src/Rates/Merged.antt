-- ===== src/Rates/Merged.antt =====
-- crates/rpglot-core/src/rates.rs: what update_pgs_rates and update_pgp_rates leave under each key.
use rpglot.Prelude.{
  ℕ, Bool, false, Option, none, some, List, [], ◌∷◌, ◌≡◌, refl, ap, ◌∙◌, arith, ◌==◌, if◌then◌else◌,
}
use rpglot.Prelude.Int.{ℤ, ◌<ℤ◌, eqb_ℤ, ltb_ℤ}
use rpglot.Prelude.Float.{F64, FloatOps, of_nat}
use rpglot.Prelude.Maps.{Map, map_get, map_insert, get-insert}
use rpglot.Prelude.Sort.{keep_if}
use rpglot.Model.Snapshot.{Snapshot}
use rpglot.Analysis.Blocks.{find_block}
use rpglot.Rates.{RateState}
use rpglot.Rates.Update.{
  Sampled, insert_rows, insert_rates, evict, is_fresh, now_ts_of, elapsed, rate_and_merge, merge_at,
  merge_rows, update_merged,
}

-- Each key stands once.
abbrev pub IsKeyed : {V : Type 0} → Map V → Type 0
IsKeyed [] = Unit {0}
IsKeyed ((k, v) ∷ m) = (map_get k m ≡ none) × IsKeyed m

abbrev pub or_else : {V : Type 0} → Option V → Option V → Option V
or_else (some v) other = some v
or_else none other = other

abbrev pub keep_some : {V : Type 0} → (V → Bool) → Option V → Option V
keep_some test none = none
keep_some test (some v) = if test v then some v else none

pub map_insert-IsKeyed :
    {V : Type 0} (k : ℕ) (v : V) (m : Map V) → IsKeyed m → IsKeyed (map_insert k v m)
unfolding map_insert map_get
map_insert-IsKeyed k v [] keyed = (refl, tt)
map_insert-IsKeyed k v ((j, w) ∷ m) keyed =
    ground (arith, map_insert-IsKeyed k v m, get-insert k j v m, keyed)

keep_if_absent :
    {V : Type 0} (test : ℕ × V → Bool) (k : ℕ) (m : Map V)
    → map_get k m ≡ none
    → map_get k (keep_if test m) ≡ none
unfolding keep_if map_get
keep_if_absent test k [] h = refl
keep_if_absent test k ((j, w) ∷ m) h = ground (arith, keep_if_absent test k m)

get-keep_if :
    {V : Type 0} (test : V → Bool) (k : ℕ) (m : Map V)
    → IsKeyed m
    → map_get k (keep_if (λ entry. test entry.1) m) ≡ keep_some test (map_get k m)
unfolding keep_if map_get
get-keep_if test k [] keyed = refl
get-keep_if test k ((j, w) ∷ m) keyed =
    ground (arith, get-keep_if test k m, keep_if_absent (λ entry. test entry.1) k m)

keep_if-IsKeyed :
    {V : Type 0} (test : ℕ × V → Bool) (m : Map V) → IsKeyed m → IsKeyed (keep_if test m)
unfolding keep_if
keep_if-IsKeyed test [] keyed = tt
keep_if-IsKeyed test ((j, w) ∷ m) keyed =
    ground (arith, keep_if-IsKeyed test m, keep_if_absent test j m)

later_tests : (a b : ℤ) → b <ℤ a → (eqb_ℤ a b ≡ false) × (ltb_ℤ a b ≡ false)
later_tests a b h = ground arith

module _ {Row Rates : Type 0} (table : Sampled Row Rates) where
  -- The row that the snapshot has last under a key.
  unfoldable pub last_row : ℕ → List Row → Option Row
  last_row k [] = none
  last_row k (row ∷ rows) =
      or_else (last_row k rows) (if table.key row == k then some row else none)

  abbrev pub rate_of : F64 → Option Row → Option Row → Option Rates
  rate_of dt prev none = none
  rate_of dt prev (some row) = some (table.rates_of dt prev row)

  pub get-insert_rows :
      (k : ℕ) (rows : List Row) (sample : Map Row)
      → map_get k (insert_rows table rows sample) ≡ or_else (last_row k rows) (map_get k sample)
  unfolding insert_rows last_row
  get-insert_rows k [] sample = refl
  get-insert_rows k (row ∷ rows) sample = ground (
    arith,
    get-insert_rows k rows (map_insert (table.key row) row sample),
    get-insert (table.key row) k row sample,
  )

  pub insert_rows-IsKeyed :
      (rows : List Row) (sample : Map Row)
      → IsKeyed sample
      → IsKeyed (insert_rows table rows sample)
  unfolding insert_rows
  insert_rows-IsKeyed [] sample keyed = keyed
  insert_rows-IsKeyed (row ∷ rows) sample keyed =
      insert_rows-IsKeyed rows (map_insert (table.key row) row sample)
        (map_insert-IsKeyed (table.key row) row sample keyed)

  pub get-insert_rates :
      (k : ℕ) (dt : F64) (sample : Map Row) (rows : List Row) (rates : Map Rates)
      → map_get k (insert_rates table dt sample rows rates)
        ≡ or_else (rate_of dt (map_get k sample) (last_row k rows)) (map_get k rates)
  unfolding insert_rates last_row
  get-insert_rates k dt sample [] rates = refl
  get-insert_rates k dt sample (row ∷ rows) rates =
      let new = table.rates_of dt (map_get (table.key row) sample) row in
      ground (
        arith,
        get-insert_rates k dt sample rows (map_insert (table.key row) new rates),
        get-insert (table.key row) k new rates,
      )

  -- What holds under a key after an update that computes rates.
  pub record IsMerged (stale : ℕ) (dt : F64) (now_ts : ℤ) (rows : List Row) (k : ℕ)
      (before after : RateState Row Rates) : Type 0 where
    pub rated : map_get k after.rates ≡ rate_of dt (map_get k before.prev_sample) (last_row k rows)
    pub kept :
        map_get k after.prev_sample
        ≡ keep_some
            (is_fresh table stale now_ts)
            (or_else (last_row k rows) (map_get k before.prev_sample))
    pub timed : after.prev_ts ≡ some now_ts
    pub keyed : IsKeyed after.prev_sample

  rate_and_merge-IsMerged :
      (stale : ℕ) (dt : F64) (now_ts : ℤ) (rows : List Row) (k : ℕ) (state : RateState Row Rates)
      → IsKeyed state.prev_sample
      → IsMerged stale dt now_ts rows k state (rate_and_merge table stale dt now_ts rows state)
  unfolding rate_and_merge evict map_get
  rate_and_merge-IsMerged stale dt now_ts rows k state keyed =
      let inserted = insert_rows-IsKeyed rows state.prev_sample keyed in
      record {
        rated = ground (arith, get-insert_rates k dt state.prev_sample rows []);
        kept =
            get-keep_if (is_fresh table stale now_ts) k (insert_rows table rows state.prev_sample)
              inserted
            ∙ ap (keep_some (is_fresh table stale now_ts))
                (get-insert_rows k rows state.prev_sample);
        timed = refl;
        keyed =
            keep_if-IsKeyed (λ entry. is_fresh table stale now_ts entry.1)
              (insert_rows table rows state.prev_sample) inserted;
      }

  -- An update that computes rates: the block is the first of its kind and has rows, the clock went on
  -- since the last sample, and not by more than the cap.
  pub record Rated (ops : FloatOps) (max_dt : ℕ) (state : RateState Row Rates) (snapshot : Snapshot)
      (row : Row) (rows : List Row) (prev_ts now_ts : ℤ) : Type 0 where
    pub found : find_block table.rows_of snapshot ≡ some (row ∷ rows)
    pub since : state.prev_ts ≡ some prev_ts
    pub now : now_ts_of table snapshot (row ∷ rows) ≡ now_ts
    pub later : prev_ts <ℤ now_ts
    pub near : ops.lt (of_nat ops max_dt) (elapsed table ops now_ts prev_ts) ≡ false

  module _ (ops : FloatOps) (max_dt stale : ℕ) (state : RateState Row Rates) (snapshot : Snapshot)
      (row : Row) (rows : List Row) (prev_ts now_ts : ℤ)
      (rated : Rated ops max_dt state snapshot row rows prev_ts now_ts) where
    update_merged-rate_and_merge :
        update_merged table ops max_dt stale state snapshot
        ≡ rate_and_merge table stale (elapsed table ops now_ts prev_ts) now_ts (row ∷ rows) state
    unfolding update_merged merge_rows merge_at
    update_merged-rate_and_merge =
        let moved = later_tests now_ts prev_ts rated.later in
        rw (rated.found, rated.since, rated.now) (rw (moved.0, moved.1, rated.near) refl)

    -- In an update that computes rates: a key of the block has the rates of its last row against the row
    -- that the sample had under the key, over the time since the last sample, and no other key has
    -- rates; the new sample has under a key the last row of the block, or where the block has none the
    -- row it had, unless that was collected too long ago; and the clock is the block's.
    pub update_merged-IsMerged :
        (k : ℕ)
        → IsKeyed state.prev_sample
        → IsMerged stale
            (elapsed table ops now_ts prev_ts)
            now_ts
            (row ∷ rows)
            k
            state
            (update_merged table ops max_dt stale state snapshot)
    update_merged-IsMerged k keyed = rw update_merged-rate_and_merge (
        rate_and_merge-IsMerged stale (elapsed table ops now_ts prev_ts) now_ts (row ∷ rows) k state
          keyed)
