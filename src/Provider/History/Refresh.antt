-- ===== src/Provider/History/Refresh.antt =====
-- provider/history.rs, refresh: new chunks, deleted chunks and the log.
use rpglot.Prelude.{
  ℕ, ◌+◌, ◌-◌, ◌%◌, ◌^◌, Bool, false, not, ◌&&◌, ◌||◌, List, [], ◌∷◌, ◌++◌, map, String, length,
  ◌==◌, if◌then◌else◌,
}
use rpglot.Prelude.Int.{ℤ}
use rpglot.Prelude.Bytes.{Bytes}
use rpglot.Prelude.Result.{Result, ok, err}
use rpglot.Prelude.Text.{same_text}
use rpglot.Storage.External.{Postcard, Crc32}
use rpglot.Storage.Wal.{WalEntry}
use rpglot.Storage.Chunk.Read.{read_chunk_metadata}
use rpglot.Provider.History.{
  ProviderError, io, ChunkMeta, HistoryProvider, Disk, sort_paths, sort_times, meta_at, times_all,
  count_all, wal_index, scan_wal,
}

-- `known_paths.contains(path)`
unfoldable pub is_known : String → List ChunkMeta → Bool
is_known path [] = false
is_known path (c ∷ chunks) = same_text c.path path || is_known path chunks

-- `chunks.last().map(|c| c.global_offset + c.snapshot_count).unwrap_or(0)`
unfoldable pub end_offset : List ChunkMeta → ℕ
end_offset [] = 0
end_offset (c ∷ []) = c.global_offset + c.snapshot_count
end_offset (c ∷ d ∷ chunks) = end_offset (d ∷ chunks)

-- The chunks that are new, from `global_offset` on. One that cannot be read is passed over.
unfoldable pub new_chunks : List ChunkMeta → List (String × Bytes) → ℕ → List ChunkMeta
new_chunks known [] global_offset = []
new_chunks known ((path, bytes) ∷ paths) global_offset =
    let later = new_chunks known paths global_offset in
    if is_known path known then later else elim (read_chunk_metadata bytes) [
      | err e ↦ later
      | ok meta ↦
          let rest = new_chunks known paths (global_offset + meta.snapshot_count) in
          if meta.snapshot_count == 0 then later else meta_at path global_offset meta ∷ rest
    ]

-- `chunk.path.exists()`
unfoldable pub exists_on : List (String × Bytes) → String → Bool
exists_on [] path = false
exists_on ((p, _) ∷ files) path = same_text p path || exists_on files path

unfoldable pub mark_deleted : Disk → List ChunkMeta → List ChunkMeta
mark_deleted disk [] = []
mark_deleted disk (c ∷ chunks) =
    (record c { available = c.available && exists_on disk.chunk_files c.path })
    ∷ mark_deleted disk chunks

unfoldable pub available_times : List ChunkMeta → List ℤ
available_times [] = []
available_times (c ∷ chunks) =
    let rest = available_times chunks in if c.available then c.timestamps ++ rest else rest

-- The provider with the chunks that were found and the entries of the log.
unfoldable pub reindexed : Disk → HistoryProvider → List (ℕ × ℕ × ℤ) → HistoryProvider
reindexed disk p entries =
    let added = new_chunks p.chunks (sort_paths disk.chunk_files) (end_offset p.chunks) in
    let chunks = mark_deleted disk (p.chunks ++ added) in
    let global_offset = end_offset p.chunks + count_all added in
    let new_timestamps = times_all added ++ map (λ (e : ℕ × ℕ × ℤ). e.2) entries in
    record p {
      chunks = chunks;
      wal = wal_index entries global_offset;
      total_snapshots = global_offset + length entries;
      timestamps = sort_times (available_times chunks ++ new_timestamps);
    }

module _ (crc32 : Crc32) (postcard : Postcard WalEntry) where
  -- Returns the provider and the number of new snapshots, a difference of `usize`s that wraps. Where
  -- the log cannot be scanned the chunks are updated and the rest is not: the error has the provider.
  unfoldable pub refresh :
      Disk → HistoryProvider → Result (ProviderError × HistoryProvider) (HistoryProvider × ℕ)
  refresh disk p =
      if not disk.readable
      then err (io "Failed to read directory", p)
      else elim (scan_wal crc32 postcard disk) [
        | err e ↦ err (e, record p { chunks = (reindexed disk p []).chunks })
        | ok entries ↦
            let q = reindexed disk p entries in
            ok (q, (q.total_snapshots + 2 ^ 64 - p.total_snapshots) % 2 ^ 64)
      ]
