-- ===== src/Tests/History.antt =====
-- A directory with a chunk of two snapshots and a log of two.
use mathlib.Core.List.{Perm}
use rpglot.Prelude.Sort.{keep_if}
use rpglot.Prelude.{
  ℕ, ◌++◌, map, suc, ◌+◌, ◌-◌, ◌≡◌, refl, true, false, none, some, List, [], ◌∷◌, arith, length,
  get_elem?,
}
use rpglot.Prelude.Int.{ℤ, pos, i64_bits, i64_of_bits}
use rpglot.Prelude.Bytes.{to_le_bytes, from_le_bytes, slice}
use rpglot.Prelude.Result.{ok}
use rpglot.Storage.Wal.{framed, read_wal_frame, read_wal_frame_validated, scan_wal_metadata}
use rpglot.Storage.Chunk.Write.{header_bytes, entry_bytes, index_bytes}
use rpglot.Storage.Chunk.Read.{read_chunk_metadata, timestamps_loop}
use rpglot.Provider.History.{
  ChunkMeta, WalEntryMeta, HistoryProvider, Disk, file, count_all, resolve_position,
  ensure_initialized, initialize, build_index, index_listed, scan_chunks, scan_wal, sort_paths,
  sort_times, insert_path, insert_time, times_all, wal_index, wal_len,
}
use rpglot.Provider.History.Index.{IsIndex, all_places, resolve-places}
use rpglot.Provider.History.Sorted.{IsSorted}
use rpglot.Provider.History.Offsets.{HasTimes, initialized-IsIndex}
use rpglot.Provider.History.Navigate.{at_last, advance, rewind}
use rpglot.Provider.History.Cursor.{IsPlaced, step_cursor}
use rpglot.Provider.History.Walk.{steps, walk_reaches}
use rpglot.Provider.History.Refresh.{
  refresh, reindexed, new_chunks, end_offset, is_known, exists_on, mark_deleted, available_times,
}
use rpglot.Provider.History.Refreshed.{gone, added_by, refresh-IsIndex}
use rpglot.Tests.Codecs.{sum_crc, entry_postcard, stored_zstd, snapshot_postcard, interner_postcard}
use rpglot.Tests.Wal.{two_frames}
use rpglot.Tests.Flush.{chunk_file}

abbrev pub disk : Disk
disk = record {
  is_dir = true;
  readable = true;
  chunk_files = ("a.zst", chunk_file) ∷ [];
  wal_log = two_frames;
}

abbrev lazy : HistoryProvider
lazy = record {
  initialized = false;
  chunks = [];
  wal = none;
  cursor = 0;
  total_snapshots = 0;
  timestamps = [];
  current_buffer = none;
  current_interner = none;
  interner_cache = none;
  last_error = none;
}

abbrev first_chunk : ChunkMeta
first_chunk = record {
  path = "a.zst";
  snapshot_count = 2;
  global_offset = 0;
  available = true;
  timestamps = pos 7 ∷ pos 9 ∷ [];
}

scanned :
    scan_wal_metadata sum_crc entry_postcard two_frames ≡ some ((0, 9, pos 7) ∷ (9, 9, pos 9) ∷ [])
unfolding scan_wal_metadata read_wal_frame read_wal_frame_validated framed to_le_bytes from_le_bytes
    slice
scanned = refl

abbrev log_entries : List WalEntryMeta
log_entries =
    record { byte_offset = 0; byte_length = 9; timestamp = pos 7 }
    ∷ record { byte_offset = 9; byte_length = 9; timestamp = pos 9 }
    ∷ []

abbrev pub started : HistoryProvider
started = record lazy {
  initialized = true;
  chunks = first_chunk ∷ [];
  wal = some (record { source = file log_entries; global_offset = 2 });
  cursor = 3;
  total_snapshots = 4;
  timestamps = pos 7 ∷ pos 7 ∷ pos 9 ∷ pos 9 ∷ [];
}

starts : ensure_initialized sum_crc entry_postcard disk lazy ≡ ok started
unfolding ensure_initialized build_index index_listed scan_chunks scan_wal sort_paths sort_times
    insert_path insert_time times_all count_all wal_index initialize read_chunk_metadata
    scan_wal_metadata read_wal_frame read_wal_frame_validated framed to_le_bytes from_le_bytes slice
    header_bytes index_bytes entry_bytes i64_bits timestamps_loop i64_of_bits
starts = refl

started-IsIndex : IsIndex started
unfolding count_all wal_len
started-IsIndex = ((refl, omega arith, tt), refl, refl)

-- The fourth position is the second entry of the log.
resolve-places_example : resolve_position started 3 ≡ get_elem? (all_places started) 3
resolve-places_example = resolve-places started started-IsIndex 3

initialized-IsIndex_example :
    IsIndex started
    × (length started.timestamps ≡ started.total_snapshots)
    × IsSorted started.timestamps
    × (suc started.cursor ≡ started.total_snapshots)
initialized-IsIndex_example =
    initialized-IsIndex sum_crc entry_postcard disk lazy started refl starts

step_cursor_example :
    let q =
      advance sum_crc entry_postcard stored_zstd snapshot_postcard interner_postcard disk started in
    let r =
      rewind sum_crc entry_postcard stored_zstd snapshot_postcard interner_postcard disk started in
    (IsPlaced q × (q.cursor ≡ at_last 4 (4 - 1)) × (q.total_snapshots ≡ 4))
    × (IsPlaced r × (r.cursor ≡ 3 - 1) × (r.total_snapshots ≡ 4))
step_cursor_example =
    step_cursor sum_crc entry_postcard stored_zstd snapshot_postcard interner_postcard disk started
      (started-IsIndex, omega arith)

-- A second chunk was written in the meantime.
abbrev larger_disk : Disk
larger_disk = record disk { chunk_files = ("a.zst", chunk_file) ∷ ("b.zst", chunk_file) ∷ [] }

abbrev refreshed_provider : HistoryProvider
refreshed_provider = record started {
  chunks = first_chunk ∷ record first_chunk { path = "b.zst"; global_offset = 2 } ∷ [];
  wal = some (record { source = file log_entries; global_offset = 4 });
  total_snapshots = 6;
  timestamps = pos 7 ∷ pos 7 ∷ pos 7 ∷ pos 7 ∷ pos 9 ∷ pos 9 ∷ pos 9 ∷ pos 9 ∷ [];
}

refreshes : refresh sum_crc entry_postcard larger_disk started ≡ ok (refreshed_provider, 2)
unfolding refresh reindexed new_chunks end_offset is_known exists_on mark_deleted available_times
    scan_wal sort_paths sort_times insert_path insert_time times_all count_all wal_index
    read_chunk_metadata scan_wal_metadata read_wal_frame read_wal_frame_validated framed to_le_bytes
    from_le_bytes slice header_bytes index_bytes entry_bytes i64_bits timestamps_loop i64_of_bits
refreshes = refl

refresh-IsIndex_example :
    (entries : List (ℕ × ℕ × ℤ)) × (scan_wal sum_crc entry_postcard larger_disk ≡ ok entries)
    × IsIndex refreshed_provider
    × HasTimes refreshed_provider.chunks
    × IsSorted refreshed_provider.timestamps
    × Perm refreshed_provider.timestamps (
        times_all (keep_if (λ c. c.available) refreshed_provider.chunks)
        ++ (times_all (added_by larger_disk started) ++ map (λ (e : ℕ × ℕ × ℤ). e.2) entries))
    × (length refreshed_provider.timestamps + gone refreshed_provider.chunks
        ≡ refreshed_provider.total_snapshots + count_all (added_by larger_disk started))
refresh-IsIndex_example =
    refresh-IsIndex sum_crc entry_postcard larger_disk started refreshed_provider 2 started-IsIndex
      (refl, tt) refreshes

walk_reaches_example :
    let first =
      steps
        (rewind sum_crc entry_postcard stored_zstd snapshot_postcard interner_postcard disk)
        3
        started in
    let q =
      steps
        (advance sum_crc entry_postcard stored_zstd snapshot_postcard interner_postcard disk)
        2
        first in
    (first.cursor ≡ 0) × (q.cursor ≡ 2) × IsPlaced q
walk_reaches_example =
    walk_reaches sum_crc entry_postcard stored_zstd snapshot_postcard interner_postcard disk started
      2 (started-IsIndex, omega arith) (omega arith)
