-- ===== src/Storage/Heatmap/Build.antt =====
-- heatmap.rs, build_heatmap_from_snapshots and build_heatmap_streaming.
use rpglot.Prelude.{
  ℕ, zero, suc, ◌+◌, Option, none, some, List, [], ◌∷◌, ◌≡◌, refl, ap, ◌∙◌, String, arith, length,
  get_elem?,
}
use rpglot.Prelude.Int.{ℤ, ◌-ℤ◌, wrap_i64}
use rpglot.Prelude.Float.{F64, FloatOps, of_nat}
use rpglot.Prelude.Result.{ok, err}
use rpglot.Model.System.{SystemCpuInfo}
use rpglot.Model.Cgroup.{CgroupCpuInfo}
use rpglot.Model.Snapshot.{Snapshot}
use rpglot.Analysis.Sample
use rpglot.Analysis.Sample.{PrevSample}
use rpglot.Analysis.Health.{compute_health_score}
use rpglot.Storage.External.{Postcard, Zstd}
use rpglot.Storage.Chunk.Read.{ChunkReader, read_snapshot}
use rpglot.Storage.Heatmap.{
  HeatmapEntry, count_checkpoint_events, count_autovacuum_events, count_slow_query_events,
  count_error_entries_by_severity, count_active_sessions, extract_system_cpu, extract_cgroup_cpu,
  extract_cgroup_memory, compute_cpu_pct, compute_cgroup_cpu_pct, compute_cgroup_mem_pct,
}

-- What is kept of the snapshot before.
pub record Kept : Type 0 where
  pub prev_cpu : Option SystemCpuInfo
  pub prev_cgroup_cpu : Option CgroupCpuInfo
  pub prev_timestamp : Option ℤ
  pub prev_sample : Option PrevSample

abbrev pub nothing_kept : Kept
nothing_kept = record {
  prev_cpu = none;
  prev_cgroup_cpu = none;
  prev_timestamp = none;
  prev_sample = none;
}

unfoldable pub kept_of : Snapshot → Kept
kept_of snap = record {
  prev_cpu = extract_system_cpu snap;
  prev_cgroup_cpu = extract_cgroup_cpu snap;
  prev_timestamp = some snap.timestamp;
  prev_sample = some (Sample.extract snap);
}

-- `match (prev, curr) { (Some(p), Some(c)) => f(p, c), _ => 0 }`
unfoldable pub both : {A : Type 0} → (A → A → ℕ) → Option A → Option A → ℕ
both f (some p) (some c) = f p c
both f _ _ = 0

unfoldable pub or_zero : {A : Type 0} → (A → ℕ) → Option A → ℕ
or_zero f none = 0
or_zero f (some a) = f a

module _ (ops : FloatOps) (xxh3_64 : String → ℕ) where
  unfoldable pub delta_time : Option ℤ → ℤ → F64
  delta_time none now = of_nat ops 0
  delta_time (some before) now = ops.of_int (wrap_i64 (now -ℤ before))

  -- The entry of one snapshot, in both loops.
  unfoldable pub heatmap_entry : Kept → Snapshot → HeatmapEntry
  heatmap_entry kept snap =
      let dt = delta_time kept.prev_timestamp snap.timestamp in
      let errors = count_error_entries_by_severity snap in
      record {
        active_sessions = count_active_sessions (xxh3_64 "idle") snap;
        cpu_pct_x10 = both (compute_cpu_pct ops) kept.prev_cpu (extract_system_cpu snap);
        cgroup_cpu_pct_x10 =
            both (λ p c. compute_cgroup_cpu_pct ops p c dt) kept.prev_cgroup_cpu
              (extract_cgroup_cpu snap);
        cgroup_mem_pct_x10 = or_zero (compute_cgroup_mem_pct ops) (extract_cgroup_memory snap);
        errors_critical = errors.0;
        errors_warning = errors.1;
        errors_info = errors.2;
        checkpoint_count = count_checkpoint_events snap;
        autovacuum_count = count_autovacuum_events snap;
        slow_query_count = count_slow_query_events snap;
        health_score = (compute_health_score ops (xxh3_64 "active") snap kept.prev_sample dt).0;
      }

  unfoldable pub build_loop : Kept → List Snapshot → List HeatmapEntry
  build_loop kept [] = []
  build_loop kept (snap ∷ snapshots) = heatmap_entry kept snap ∷ build_loop (kept_of snap) snapshots

  unfoldable pub build_heatmap_from_snapshots : List Snapshot → List HeatmapEntry
  build_heatmap_from_snapshots snapshots = build_loop nothing_kept snapshots

  module _ (zstd : Zstd) (postcard : Postcard Snapshot) (reader : ChunkReader) where
    unfoldable pub streaming_loop : Kept → ℕ → ℕ → Option (List HeatmapEntry)
    streaming_loop kept zero i = some []
    streaming_loop kept (suc remaining) i = elim (read_snapshot zstd postcard reader i) [
      | err e ↦ none
      | ok snap ↦ elim (streaming_loop (kept_of snap) remaining (suc i)) [
        | none ↦ none
        | some entries ↦ some (heatmap_entry kept snap ∷ entries)
      ]
    ]

    unfoldable pub build_heatmap_streaming : Option (List HeatmapEntry)
    build_heatmap_streaming = streaming_loop nothing_kept reader.snapshot_count 0

    streaming_loop-build :
        (kept : Kept) (i : ℕ) (snapshots : List Snapshot)
        → ((j : ℕ) (s : Snapshot)
            → get_elem? snapshots j ≡ some s
            → read_snapshot zstd postcard reader (i + j) ≡ ok s)
        → streaming_loop kept (length snapshots) i ≡ some (build_loop kept snapshots)
    unfolding streaming_loop build_loop
    streaming_loop-build kept i [] reads = refl
    streaming_loop-build kept i (s ∷ snapshots) reads =
        let here : read_snapshot zstd postcard reader i ≡ ok s =
          ap (read_snapshot zstd postcard reader) {x = i} {y = i + 0} (omega arith)
          ∙ reads 0 s refl in
        let rest : streaming_loop (kept_of s) (length snapshots) (suc i)
            ≡ some (build_loop (kept_of s) snapshots) =
          streaming_loop-build (kept_of s) (suc i) snapshots (λ j t h.
            ap (read_snapshot zstd postcard reader) {x = suc i + j} {y = i + suc j} (omega arith)
            ∙ reads (suc j) t h) in
        cc (here, rest)

    -- Read one at a time from a chunk, the snapshots give the entries that they give as a list, if the
    -- chunk has as many and each reads.
    pub streaming-build :
        (snapshots : List Snapshot)
        → reader.snapshot_count ≡ length snapshots
        → ((j : ℕ) (s : Snapshot)
            → get_elem? snapshots j ≡ some s
            → read_snapshot zstd postcard reader j ≡ ok s)
        → build_heatmap_streaming ≡ some (build_heatmap_from_snapshots snapshots)
    unfolding build_heatmap_streaming build_heatmap_from_snapshots
    streaming-build snapshots count reads =
        ap (λ n. streaming_loop nothing_kept n 0) count
        ∙ streaming_loop-build nothing_kept 0 snapshots (λ j s h.
          ap (read_snapshot zstd postcard reader) {x = 0 + j} {y = j} (omega arith) ∙ reads j s h)
