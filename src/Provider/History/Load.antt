-- ===== src/Provider/History/Load.antt =====
-- provider/history.rs: snapshots are read from the disk when they are asked for. A chunk that fails is
-- marked as not available.
use rpglot.Prelude.{
  ℕ, zero, suc, false, Option, none, some, List, [], ◌∷◌, String, get_elem?, ◌==◌, if◌then◌else◌,
}
use rpglot.Prelude.Bytes.{Bytes}
use rpglot.Prelude.Result.{Result, ok, err, map_err, ◌>>=◌}
use rpglot.Prelude.Text.{same_text}
use rpglot.Model.Snapshot.{Snapshot}
use rpglot.Storage.External.{Postcard, Crc32, Zstd}
use rpglot.Storage.Interner
use rpglot.Storage.Interner.{StringInterner}
use rpglot.Storage.Wal.{WalEntry}
use rpglot.Storage.Wal
use rpglot.Storage.Chunk.Read.{ChunkReader, open_chunk, read_snapshot, read_interner}
use rpglot.Provider.History.{
  ProviderError, io, CachedInterner, ChunkMeta, WalEntryMeta, WalSource, file, in_memory, WalIndex,
  HistoryProvider, Disk, SnapshotLocation, chunk, wal_entry_at, resolve_position,
}

-- The file of a path; none is there after a rotation.
unfoldable pub find_file : String → List (String × Bytes) → Option Bytes
find_file path [] = none
find_file path ((p, bytes) ∷ files) = if same_text p path then some bytes else find_file path files

abbrev pub read_file : Disk → String → Result ProviderError Bytes
read_file disk path = elim (find_file path disk.chunk_files) [
  | none ↦ err (io "Failed to open chunk")
  | some bytes ↦ ok bytes
]

abbrev pub failed {ℓ} : {E : Type ℓ} → String → E → ProviderError
failed message e = io message

unfoldable pub set_unavailable : ℕ → List ChunkMeta → List ChunkMeta
set_unavailable i [] = []
set_unavailable zero (c ∷ chunks) = record c { available = false } ∷ chunks
set_unavailable (suc i) (c ∷ chunks) = c ∷ set_unavailable i chunks

module _ (crc32 : Crc32) (wal_postcard : Postcard WalEntry) (zstd : Zstd)
    (snapshot_postcard : Postcard Snapshot) (interner_postcard : Postcard StringInterner)
    (disk : Disk) where
  unfoldable pub load_entry : WalEntryMeta → Option (Snapshot × StringInterner)
  load_entry e =
      Wal.load_wal_snapshot_with_interner crc32 wal_postcard disk.wal_log e.byte_offset
        e.byte_length

  -- WalIndex::load_snapshot_with_interner
  unfoldable pub load_snapshot_with_interner : WalSource → ℕ → Option (Snapshot × StringInterner)
  load_snapshot_with_interner (file entries) idx = elim (get_elem? entries idx) [
    | none ↦ none
    | some e ↦ load_entry e
  ]
  load_snapshot_with_interner (in_memory snapshots) idx = elim (get_elem? snapshots idx) [
    | none ↦ none
    | some s ↦ some (s, Interner.new)
  ]

  -- WalIndex::load_snapshot
  unfoldable pub load_snapshot : WalSource → ℕ → Option Snapshot
  load_snapshot (file entries) idx = elim (get_elem? entries idx) [
    | none ↦ none
    | some e ↦ Wal.load_wal_snapshot_at crc32 wal_postcard disk.wal_log e.byte_offset e.byte_length
  ]
  load_snapshot (in_memory snapshots) idx = get_elem? snapshots idx

  -- The interner of a chunk, from the cache if it is there.
  unfoldable pub chunk_interner :
      Option CachedInterner → ℕ → ChunkReader → Result ProviderError StringInterner
  chunk_interner none idx reader =
      map_err (failed "Failed to read interner") (read_interner zstd interner_postcard reader)
  chunk_interner (some cached) idx reader =
      if cached.chunk_idx == idx
      then ok cached.interner
      else map_err (failed "Failed to read interner") (read_interner zstd interner_postcard reader)

  -- The snapshot, its interner, and the cache. The caller has tested the index of the chunk.
  unfoldable pub load_from_chunk :
      Option CachedInterner
      → List ChunkMeta
      → ℕ
      → ℕ
      → Result ProviderError ((Snapshot × StringInterner) × Option CachedInterner)
  load_from_chunk cache chunks idx offset_in_chunk = elim (get_elem? chunks idx) [
    | none ↦ err (io "panic: index out of range")
    | some meta ↦
        if meta.available
        then (do
          bytes ← read_file disk meta.path
          reader ← map_err (failed "Failed to open chunk") (open_chunk bytes)
          snapshot ←
              map_err (failed "Failed to read snapshot")
                (read_snapshot zstd snapshot_postcard reader offset_in_chunk)
          interner ← chunk_interner cache idx reader
          ok ((snapshot, interner), some (record { chunk_idx = idx; interner = interner })))
        else err (io "Chunk file no longer available")
  ]

  -- What a provider has behind a load: both buffers are filled, or empty.
  abbrev pub buffered : Option (Snapshot × StringInterner) → HistoryProvider → HistoryProvider
  buffered none p = record p { current_buffer = none; current_interner = none }
  buffered (some (s, i)) p = record p { current_buffer = some s; current_interner = some i }

  -- The arms of load_into_buffer
  unfoldable pub buffer_wal : Option WalIndex → ℕ → HistoryProvider → HistoryProvider
  buffer_wal none idx p = buffered none p
  buffer_wal (some w) idx p = buffered (load_snapshot_with_interner w.source idx) p

  unfoldable pub buffer_chunk :
      ℕ
      → Result ProviderError ((Snapshot × StringInterner) × Option CachedInterner)
      → HistoryProvider
      → HistoryProvider
  buffer_chunk idx (ok (loaded, cache)) p =
      buffered (some loaded) (record p { interner_cache = cache })
  buffer_chunk idx (err e) p = buffered none (record p { chunks = set_unavailable idx p.chunks })

  unfoldable pub buffer_location : Option SnapshotLocation → HistoryProvider → HistoryProvider
  buffer_location none p = buffered none p
  buffer_location (some (wal_entry_at idx)) p = buffer_wal p.wal idx p
  buffer_location (some (chunk idx offset)) p =
      buffer_chunk idx (load_from_chunk p.interner_cache p.chunks idx offset) p

  unfoldable pub load_into_buffer : ℕ → HistoryProvider → HistoryProvider
  load_into_buffer position p = buffer_location (resolve_position p position) p

  -- snapshot_at, which is snapshot_cloned
  unfoldable pub snapshot_at : ℕ → HistoryProvider → HistoryProvider × Option Snapshot
  snapshot_at position p = elim (resolve_position p position) [
    | none ↦ (p, none)
    | some (wal_entry_at idx) ↦ elim (p.wal) [
      | none ↦ (p, none)
      | some w ↦ (p, load_snapshot w.source idx)
    ]
    | some (chunk idx offset) ↦ elim (load_from_chunk p.interner_cache p.chunks idx offset) [
      | ok (loaded, cache) ↦ (record p { interner_cache = cache }, some loaded.0)
      | err e ↦ (record p { chunks = set_unavailable idx p.chunks }, none)
    ]
  ]

  unfoldable pub snapshot_with_interner_at :
      ℕ → HistoryProvider → HistoryProvider × Option (Snapshot × StringInterner)
  snapshot_with_interner_at position p = elim (resolve_position p position) [
    | none ↦ (p, none)
    | some (wal_entry_at idx) ↦ elim (p.wal) [
      | none ↦ (p, none)
      | some w ↦ (p, load_snapshot_with_interner w.source idx)
    ]
    | some (chunk idx offset) ↦ elim (load_from_chunk p.interner_cache p.chunks idx offset) [
      | ok (loaded, cache) ↦ (record p { interner_cache = cache }, some loaded)
      | err e ↦ (p, none)
    ]
  ]
