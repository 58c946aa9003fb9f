-- ===== src/Storage/Heatmap/Flushed.antt =====
-- The heatmap of a chunk that a flush made.
use rpglot.Prelude.{ℕ, ◌<◌, ◌^◌, some, List, ◌≡◌, length, get_elem?, String}
use rpglot.Prelude.Int.{IsI64}
use rpglot.Prelude.Bytes.{Bytes}
use rpglot.Prelude.Float.{FloatOps}
use rpglot.Prelude.Result.{ok}
use rpglot.Model.Snapshot.{Snapshot}
use rpglot.Storage.External.{Postcard, Crc32, Zstd}
use rpglot.Storage.Interner.{StringInterner}
use rpglot.Storage.Wal.{WalEntry, load_wal_snapshots}
use rpglot.Storage.Chunk.Read.{ChunkReader, open_chunk}
use rpglot.Storage.Flush.{chunk_of_wal}
use rpglot.Storage.Flush.Kept.{flush-Keeps}
use rpglot.Storage.Heatmap.Build.{
  build_heatmap_from_snapshots, build_heatmap_streaming, streaming-build,
}

module _ (crc32 : Crc32) (wal_postcard : Postcard WalEntry) (zstd : Zstd)
    (snapshot_postcard : Postcard Snapshot) (interner_postcard : Postcard StringInterner)
    (ops : FloatOps) (xxh3_64 : String → ℕ) where
  -- The heatmap that is built from a flushed chunk, one snapshot at a time, is that of the log's
  -- snapshots. The file is below 2 ^ 64 bytes, the timestamps of the snapshots are `i64`s, and the
  -- serialized bytes of each are fewer than 2 ^ 32.
  pub heatmap_of_flush :
      (count : ℕ) (wal_data file : Bytes) (snapshots : List Snapshot) (interner : StringInterner)
      → load_wal_snapshots crc32 wal_postcard wal_data ≡ some (snapshots, interner)
      → chunk_of_wal crc32 wal_postcard zstd snapshot_postcard interner_postcard count wal_data
        ≡ some (ok file)
      → length file < 2 ^ 64
      → ((j : ℕ) (t : Snapshot) → get_elem? snapshots j ≡ some t → IsI64 t.timestamp)
      → ((j : ℕ) (t : Snapshot) (raw : Bytes)
          → get_elem? snapshots j ≡ some t
          → snapshot_postcard.to_allocvec t ≡ ok raw
          → length raw < 2 ^ 32)
      → (reader : ChunkReader) × (open_chunk file ≡ ok reader)
        × (build_heatmap_streaming ops xxh3_64 zstd snapshot_postcard reader
            ≡ some (build_heatmap_from_snapshots ops xxh3_64 snapshots))
  heatmap_of_flush count wal_data file snapshots interner loaded flushed small times raws =
      let (reader, strings, opened, same_count, _, keeps) =
        flush-Keeps crc32 wal_postcard zstd snapshot_postcard interner_postcard count wal_data file
          snapshots interner loaded flushed small times raws in
      (
        reader,
        opened,
        streaming-build ops xxh3_64 zstd snapshot_postcard reader snapshots same_count
            (λ j s at. (keeps j s at).0),
      )
