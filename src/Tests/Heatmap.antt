-- ===== src/Tests/Heatmap.antt =====
-- Two snapshots with processor counters, and the heatmap of a flushed log.
use rpglot.Prelude.{ℕ, ◌+◌, ◌-◌, ◌≤◌, ◌≡◌, refl, some, List, [], ◌∷◌, String, arith, length}
use rpglot.Prelude.Int.{pos, negsuc}
use rpglot.Prelude.Result.{ok}
use rpglot.Prelude.Bytes.{to_le_bytes}
use rpglot.Model.System.{SystemCpuInfo}
use rpglot.Model.Snapshot.{Snapshot, system_cpu}
use rpglot.Analysis.Sample
use rpglot.Analysis.Health.{compute_health_score}
use rpglot.Analysis.Health.Bounds.{health_penalties}
use rpglot.Storage.Chunk.Read.{ChunkReader, open_chunk}
use rpglot.Storage.Chunk.Write.{header_bytes, entry_bytes, index_bytes}
use rpglot.Storage.Heatmap.{HeatmapEntry}
use rpglot.Storage.Heatmap.Codec.{write_heatmap, read_heatmap}
use rpglot.Storage.Heatmap.Build.{build_heatmap_from_snapshots, build_heatmap_streaming}
use rpglot.Storage.Heatmap.Counts.{sidecar_back}
use rpglot.Storage.Heatmap.Flushed.{heatmap_of_flush}
use rpglot.Storage.Heatmap.Buckets.{HeatmapBucket, bucket_heatmap}
use rpglot.Storage.Heatmap.Buckets.Cover.{CoveredAt, place_of, buckets_cover}
use rpglot.Tests.Codecs.{sum_crc, entry_postcard, stored_zstd, snapshot_postcard, interner_postcard}
use rpglot.Tests.Floats.{whole_numbers}
use rpglot.Tests.Wal.{two_frames}
use rpglot.Tests.Flush.{two_snapshots, chunk_file, two_loaded, two_flushed, times_fit, raws_fit}

abbrev ticks : ℕ → ℕ → ℕ → SystemCpuInfo
ticks user idle iowait = record {
  cpu_id = negsuc 0;
  user = user;
  nice = 0;
  system = 0;
  idle = idle;
  iowait = iowait;
  irq = 0;
  softirq = 0;
  steal = 0;
  guest = 0;
  guest_nice = 0;
}

abbrev at_time : ℕ → SystemCpuInfo → Snapshot
at_time t cpu = record { timestamp = pos t; blocks = system_cpu (cpu ∷ []) ∷ [] }

abbrev quiet : Snapshot
quiet = at_time 10 (ticks 100 900 0)

abbrev busy : Snapshot
busy = at_time 20 (ticks 300 900 0)

-- Every string hashes to 0.
abbrev short_hash : String → ℕ
short_hash s = 0

health_penalties_example :
    let r = compute_health_score whole_numbers 0 busy (some (Sample.extract quiet)) 10 in
    (r.0 ≡ 100 - (r.1.sessions + r.1.cpu + r.1.disk_iops + r.1.disk_bw))
    × (r.1.sessions ≤ 100)
    × (r.1.cpu ≤ 100)
    × (r.1.disk_iops ≤ 100)
    × (r.1.disk_bw ≤ 100)
health_penalties_example = health_penalties whole_numbers 0 busy (some (Sample.extract quiet)) 10

sidecar_back_example :
    read_heatmap
      (write_heatmap (build_heatmap_from_snapshots whole_numbers short_hash (quiet ∷ busy ∷ [])))
    ≡ ok (build_heatmap_from_snapshots whole_numbers short_hash (quiet ∷ busy ∷ []))
sidecar_back_example = sidecar_back whole_numbers short_hash (quiet ∷ busy ∷ [])

heatmap_of_flush_example :
    (reader : ChunkReader) × (open_chunk chunk_file ≡ ok reader)
    × (build_heatmap_streaming whole_numbers short_hash stored_zstd snapshot_postcard reader
        ≡ some (build_heatmap_from_snapshots whole_numbers short_hash two_snapshots))
unfolding header_bytes index_bytes entry_bytes to_le_bytes
heatmap_of_flush_example =
    heatmap_of_flush sum_crc entry_postcard stored_zstd snapshot_postcard interner_postcard
      whole_numbers short_hash 2 two_frames chunk_file two_snapshots (record { strings = [] })
      two_loaded two_flushed (omega arith) times_fit raws_fit

abbrev loud : HeatmapEntry
loud = record {
  active_sessions = 7;
  cpu_pct_x10 = 800;
  cgroup_cpu_pct_x10 = 0;
  cgroup_mem_pct_x10 = 0;
  errors_critical = 1;
  errors_warning = 0;
  errors_info = 0;
  checkpoint_count = 0;
  autovacuum_count = 0;
  slow_query_count = 2;
  health_score = 40;
}

buckets_cover_example :
    (buckets : List HeatmapBucket) × (bucket_heatmap whole_numbers
        (pos 0)
        (pos 60)
        6
        ((pos 5, loud) ∷ (pos 60, loud) ∷ [])
      ≡ some buckets)
    × (length buckets ≡ 6)
    × CoveredAt buckets (place_of whole_numbers (pos 0) (pos 60) 6 (pos 60)) loud
buckets_cover_example =
    buckets_cover whole_numbers (pos 0) (pos 60) 6 ((pos 5, loud) ∷ (pos 60, loud) ∷ []) 1 (pos 60)
      loud (ground arith) refl refl
