-- ===== src/Provider/History.antt =====
-- provider/history.rs: the state of the history provider and its index. The disk is what the directory
-- holds. An error has its message without what is formatted into it.
pub mod Load
pub mod Navigate
pub mod Refresh
pub mod Index
pub mod Offsets
pub mod Sorted
pub mod Cursor
pub mod Timed
pub mod Walk
pub mod Refreshed
use rpglot.Prelude.{
  ℕ, suc, ◌+◌, ◌-◌, Bool, true, false, Option, none, some, List, [], ◌∷◌, ◌++◌, map, length,
  get_elem?, String, ltb, leb, ◌==◌, ◌&&◌, if◌then◌else◌,
}
use rpglot.Prelude.Int.{ℤ, leb_ℤ}
use rpglot.Prelude.Bytes.{Bytes}
use rpglot.Prelude.Result.{Result, ok, err, map_err, ◌>>=◌}
use rpglot.Prelude.Text.{text_le}
use rpglot.Model.Snapshot.{Snapshot}
use rpglot.Storage.External.{Postcard, Crc32}
use rpglot.Storage.Interner
use rpglot.Storage.Interner.{StringInterner}
use rpglot.Storage.Wal.{WalEntry, scan_wal_metadata}
use rpglot.Storage.Chunk.Read.{ChunkMetadata, read_chunk_metadata}

pub data ProviderError : Type 0 where
  io collection : String → ProviderError

pub record CachedInterner : Type 0 where
  pub chunk_idx : ℕ
  pub interner : StringInterner

pub record ChunkMeta : Type 0 where
  pub path : String
  pub snapshot_count : ℕ
  pub global_offset : ℕ
  pub available : Bool
  pub timestamps : List ℤ

pub record WalEntryMeta : Type 0 where
  pub byte_offset : ℕ
  pub byte_length : ℕ
  pub timestamp : ℤ

-- The file is wal.log of the disk.
pub data WalSource : Type 0 where
  file : List WalEntryMeta → WalSource
  in_memory : List Snapshot → WalSource

pub record WalIndex : Type 0 where
  pub source : WalSource
  pub global_offset : ℕ

pub record HistoryProvider : Type 0 where
  pub initialized : Bool
  pub chunks : List ChunkMeta
  pub wal : Option WalIndex
  pub cursor : ℕ
  pub total_snapshots : ℕ
  pub timestamps : List ℤ
  pub current_buffer : Option Snapshot
  pub current_interner : Option StringInterner
  pub interner_cache : Option CachedInterner
  pub last_error : Option ProviderError

-- What the storage directory holds: whether it is one, whether it can be listed, its .zst files and
-- wal.log.
pub record Disk : Type 0 where
  pub is_dir : Bool
  pub readable : Bool
  pub chunk_files : List (String × Bytes)
  pub wal_log : Bytes

unfoldable pub wal_len : WalSource → ℕ
wal_len (file entries) = length entries
wal_len (in_memory snapshots) = length snapshots

-- `chunk_paths.sort()`
unfoldable pub insert_path : String × Bytes → List (String × Bytes) → List (String × Bytes)
insert_path p [] = p ∷ []
insert_path p (q ∷ paths) =
    let rest = insert_path p paths in if text_le p.0 q.0 then p ∷ q ∷ paths else q ∷ rest

unfoldable pub sort_paths : List (String × Bytes) → List (String × Bytes)
sort_paths [] = []
sort_paths (p ∷ paths) = insert_path p (sort_paths paths)

-- `all_timestamps.sort()`
unfoldable pub insert_time : ℤ → List ℤ → List ℤ
insert_time t [] = t ∷ []
insert_time t (u ∷ times) =
    let rest = insert_time t times in if leb_ℤ t u then t ∷ u ∷ times else u ∷ rest

unfoldable pub sort_times : List ℤ → List ℤ
sort_times [] = []
sort_times (t ∷ times) = insert_time t (sort_times times)

unfoldable pub from_path_lazy : Disk → Result ProviderError HistoryProvider
from_path_lazy disk =
    if disk.is_dir
    then ok (record {
      initialized = false;
      chunks = [];
      wal = none;
      cursor = 0;
      total_snapshots = 0;
      timestamps = [];
      current_buffer = none;
      current_interner = none;
      interner_cache = none;
      last_error = none;
    })
    else err (io "History path does not exist or is not a directory")

unfoldable pub from_snapshots : List Snapshot → Result ProviderError HistoryProvider
from_snapshots [] = err (io "Cannot create provider with empty snapshots")
from_snapshots (s ∷ snapshots) = ok (record {
  initialized = true;
  chunks = [];
  wal = some (record { source = in_memory (s ∷ snapshots); global_offset = 0 });
  cursor = 0;
  total_snapshots = length (s ∷ snapshots);
  timestamps = map (λ (t : Snapshot). t.timestamp) (s ∷ snapshots);
  current_buffer = some s;
  current_interner = some Interner.new;
  interner_cache = none;
  last_error = none;
})

abbrev pub meta_at : String → ℕ → ChunkMetadata → ChunkMeta
meta_at path global_offset meta = record {
  path = path;
  snapshot_count = meta.snapshot_count;
  global_offset = global_offset;
  available = true;
  timestamps = meta.timestamps;
}

-- The scan of the chunk files behind `global_offset`. A chunk without snapshots is passed over.
unfoldable pub scan_chunks : List (String × Bytes) → ℕ → Result ProviderError (List ChunkMeta)
scan_chunks [] global_offset = ok []
scan_chunks ((path, bytes) ∷ paths) global_offset = elim (read_chunk_metadata bytes) [
  | err e ↦ err (io "Failed to read chunk metadata")
  | ok meta ↦
      let later = scan_chunks paths global_offset in
      let rest = scan_chunks paths (global_offset + meta.snapshot_count) in
      if meta.snapshot_count == 0
      then later
      else rest >>= λ chunks. ok (meta_at path global_offset meta ∷ chunks)
]

-- The sum of what was added to global_offset, and the timestamps, both in the order of the chunks.
unfoldable pub count_all : List ChunkMeta → ℕ
count_all [] = 0
count_all (c ∷ chunks) = c.snapshot_count + count_all chunks

unfoldable pub times_all : List ChunkMeta → List ℤ
times_all [] = []
times_all (c ∷ chunks) = c.timestamps ++ times_all chunks

abbrev pub entry_meta : ℕ × ℕ × ℤ → WalEntryMeta
entry_meta e = record { byte_offset = e.0; byte_length = e.1; timestamp = e.2 }

unfoldable pub wal_index : List (ℕ × ℕ × ℤ) → ℕ → Option WalIndex
wal_index [] global_offset = none
wal_index (e ∷ entries) global_offset =
    some (record { source = file (map entry_meta (e ∷ entries)); global_offset = global_offset })

pub record BuiltIndex : Type 0 where
  pub built_chunks : List ChunkMeta
  pub built_wal : Option WalIndex
  pub built_total : ℕ
  pub built_timestamps : List ℤ

module _ (crc32 : Crc32) (postcard : Postcard WalEntry) where
  -- scan_wal_metadata of wal.log
  unfoldable pub scan_wal : Disk → Result ProviderError (List (ℕ × ℕ × ℤ))
  scan_wal disk = elim (scan_wal_metadata crc32 postcard disk.wal_log) [
    | some entries ↦ ok entries
    | none ↦ err (io "Failed to scan WAL")
  ]

  -- build_index behind the listing of the directory
  unfoldable pub index_listed : Disk → Result ProviderError BuiltIndex
  index_listed disk = do
    chunks ← scan_chunks (sort_paths disk.chunk_files) 0
    entries ← scan_wal disk
    ok (record {
      built_chunks = chunks;
      built_wal = wal_index entries (count_all chunks);
      built_total = count_all chunks + length entries;
      built_timestamps = sort_times (times_all chunks ++ map (λ (e : ℕ × ℕ × ℤ). e.2) entries);
    })

  unfoldable pub build_index : Disk → Result ProviderError BuiltIndex
  build_index disk =
      if disk.readable then index_listed disk else err (io "Failed to read directory")

  -- ensure_initialized behind build_index
  unfoldable pub initialize : HistoryProvider → BuiltIndex → Result ProviderError HistoryProvider
  initialize p built =
      if built.built_total == 0
      then err (io "No snapshots found in storage")
      else ok (record p {
        chunks = built.built_chunks;
        wal = built.built_wal;
        total_snapshots = built.built_total;
        timestamps = built.built_timestamps;
        cursor = built.built_total - 1;
        initialized = true;
      })

  unfoldable pub ensure_initialized : Disk → HistoryProvider → Result ProviderError HistoryProvider
  ensure_initialized disk p = if p.initialized then ok p else (build_index disk >>= initialize p)

-- Where a snapshot is.
pub data SnapshotLocation : Type 0 where
  chunk : ℕ → ℕ → SnapshotLocation
  wal_entry_at : ℕ → SnapshotLocation

-- `partition_point(|c| c.global_offset <= position)`: the offsets grow, so it is the length of the
-- longest start whose offsets pass the test.
unfoldable pub chunks_before : List ChunkMeta → ℕ → ℕ
chunks_before [] position = 0
chunks_before (c ∷ chunks) position =
    let rest = chunks_before chunks position in if leb c.global_offset position then suc rest else 0

unfoldable pub resolve_chunk : List ChunkMeta → ℕ → Option SnapshotLocation
resolve_chunk chunks position =
    let chunk_idx = chunks_before chunks position - 1 in
    elim (get_elem? chunks chunk_idx) [
      | none ↦ none
      | some c ↦
          if ltb (position - c.global_offset) c.snapshot_count
          then some (chunk chunk_idx (position - c.global_offset))
          else none
    ]

unfoldable pub resolve_wal : WalIndex → ℕ → Option SnapshotLocation
resolve_wal w position =
    if ltb (position - w.global_offset) (wal_len w.source)
    then some (wal_entry_at (position - w.global_offset))
    else none

unfoldable pub resolve_position : HistoryProvider → ℕ → Option SnapshotLocation
resolve_position p position = if leb p.total_snapshots position then none else elim (p.wal) [
  | none ↦ resolve_chunk p.chunks position
  | some w ↦
      if leb w.global_offset position
      then resolve_wal w position
      else resolve_chunk p.chunks position
]
