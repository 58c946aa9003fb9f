-- ===== src/Storage/Heatmap/Buckets.antt =====
-- heatmap.rs, bucket_heatmap: the entries of a range of time in a fixed number of buckets.
pub mod Cover
use rpglot.Prelude.{
  ℕ, zero, suc, ◌+◌, ◌-◌, ◌*◌, ◌^◌, ◌≤◌, ◌<◌, Bool, ◌||◌, Option, none, some, List, [], ◌∷◌, map,
  length, ltb, leb, ◌==◌, if◌then◌else◌, ◌≡◌, refl, arith, ap, ◌∙◌,
}
use rpglot.Prelude.Int.{ℤ, pos, ◌+ℤ◌, ◌-ℤ◌, leb_ℤ, wrap_i64}
use rpglot.Prelude.Float.{F64, FloatOps, of_nat}
use rpglot.Storage.Heatmap.{HeatmapEntry, at_most}

pub record HeatmapBucket : Type 0 where
  pub ts : ℤ
  pub active : ℕ
  pub cpu : ℕ
  pub cgroup_cpu : ℕ
  pub cgroup_mem : ℕ
  pub errors_critical : ℕ
  pub errors_warning : ℕ
  pub errors_info : ℕ
  pub checkpoints : ℕ
  pub autovacuums : ℕ
  pub slow_queries : ℕ
  pub health : ℕ

abbrev pub larger : ℕ → ℕ → ℕ
larger a b = if ltb a b then b else a

abbrev pub smaller : ℕ → ℕ → ℕ
smaller a b = if ltb b a then b else a

unfoldable pub merge_entry : HeatmapEntry → HeatmapBucket → HeatmapBucket
merge_entry e b = record {
  ts = b.ts;
  active = larger b.active e.active_sessions;
  cpu = larger b.cpu e.cpu_pct_x10;
  cgroup_cpu = larger b.cgroup_cpu e.cgroup_cpu_pct_x10;
  cgroup_mem = larger b.cgroup_mem e.cgroup_mem_pct_x10;
  errors_critical = larger b.errors_critical e.errors_critical;
  errors_warning = larger b.errors_warning e.errors_warning;
  errors_info = larger b.errors_info e.errors_info;
  checkpoints = at_most 255 (b.checkpoints + e.checkpoint_count);
  autovacuums = at_most 255 (b.autovacuums + e.autovacuum_count);
  slow_queries = at_most 255 (b.slow_queries + e.slow_query_count);
  health = smaller b.health e.health_score;
}

-- `buckets[idx]` is changed; an index past the end is a panic.
unfoldable pub update_at {ℓ} : {A : Type ℓ} → (A → A) → ℕ → List A → Option (List A)
update_at f i [] = none
update_at f zero (b ∷ buckets) = some (f b ∷ buckets)
update_at f (suc i) (b ∷ buckets) = elim (update_at f i buckets) [
  | none ↦ none
  | some rest ↦ some (b ∷ rest)
]

module _ (ops : FloatOps) (start_ts end_ts : ℤ) (num_buckets : ℕ) where
  abbrev pub range : F64
  range = ops.of_int (wrap_i64 (end_ts -ℤ start_ts))

  unfoldable pub empty_bucket : ℕ → HeatmapBucket
  empty_bucket i = record {
    ts =
        wrap_i64 (
          start_ts +ℤ ops.to_i64 (ops.div (ops.mul range (of_nat ops i)) (of_nat ops num_buckets)));
    active = 0;
    cpu = 0;
    cgroup_cpu = 0;
    cgroup_mem = 0;
    errors_critical = 0;
    errors_warning = 0;
    errors_info = 0;
    checkpoints = 0;
    autovacuums = 0;
    slow_queries = 0;
    health = 100;
  }

  unfoldable pub empty_buckets : ℕ → ℕ → List HeatmapBucket
  empty_buckets zero i = []
  empty_buckets (suc remaining) i = empty_bucket i ∷ empty_buckets remaining (suc i)

  unfoldable pub bucket_index : ℤ → ℕ
  bucket_index ts = at_most (num_buckets - 1) (
      ops.to_usize
        (ops.mul (ops.div (ops.of_int (wrap_i64 (ts -ℤ start_ts))) range) (of_nat ops num_buckets)))

  unfoldable pub bucket_loop :
      List (ℤ × HeatmapEntry) → List HeatmapBucket → Option (List HeatmapBucket)
  bucket_loop [] buckets = some buckets
  bucket_loop ((ts, e) ∷ entries) buckets =
      elim (update_at (merge_entry e) (bucket_index ts) buckets) [
        | none ↦ none
        | some after ↦ bucket_loop entries after
      ]

  -- `none` is a panic.
  unfoldable pub bucket_heatmap : List (ℤ × HeatmapEntry) → Option (List HeatmapBucket)
  bucket_heatmap [] = some []
  bucket_heatmap (e ∷ entries) =
      if num_buckets == 0 || leb_ℤ end_ts start_ts
      then some []
      else bucket_loop (e ∷ entries) (empty_buckets num_buckets 0)
