-- ===== src/Tests/Timed.antt =====
-- A chunk of two snapshots with a log behind it in time, and a directory where both have the same times.
use rpglot.Prelude.{
  ℕ, zero, suc, ◌≤◌, ◌<◌, ◌≡◌, ◌↔◌, refl, sym, ap, ◌∙◌, some, [], ◌∷◌, arith, get_elem?,
}
use rpglot.Prelude.Int.{pos, ◌≤ℤ◌, ◌<ℤ◌, i64_of_bits, i64_bits}
use rpglot.Prelude.Bytes.{to_le_bytes, from_le_bytes, slice}
use rpglot.Collector.Texts.{some_injective}
use rpglot.Model.Snapshot.{Snapshot}
use rpglot.Storage.Wal.{
  framed, read_wal_frame, read_wal_frame_validated, load_wal_snapshot_at,
  load_wal_snapshot_with_interner,
}
use rpglot.Storage.Chunk.Write.{header_bytes, entry_bytes, index_bytes}
use rpglot.Storage.Chunk.Read.{index_loop, read_entry, open_chunk, read_snapshot, read_interner}
use rpglot.Provider.History.{
  HistoryProvider, Disk, file, count_all, wal_len, resolve_position, resolve_chunk, resolve_wal,
  chunks_before,
}
use rpglot.Provider.History.Index.{IsIndex}
use rpglot.Provider.History.Load.{
  snapshot_at, load_snapshot, load_from_chunk, chunk_interner, find_file,
  load_snapshot_with_interner, load_entry, buffer_location, buffer_wal, buffer_chunk,
  load_into_buffer,
}
use rpglot.Provider.History.Navigate.{
  partition_point, move_to, jump_to_timestamp_floor, jump_to_timestamp_ceil,
}
use rpglot.Provider.History.Cursor.{IsPlaced}
use rpglot.Provider.History.Timed.{Reads, IsAligned, floor_finds, ceil_finds}
use rpglot.Tests.Codecs.{
  sum_crc, entry_postcard, stored_zstd, snapshot_postcard, interner_postcard, snapshot_of,
}
use rpglot.Tests.Wal.{frame}
use rpglot.Tests.History.{disk, started}

abbrev later_disk : Disk
later_disk = record disk { wal_log = frame 11 }

abbrev in_order : HistoryProvider
in_order = record started {
  wal = some (record {
    source = file (record { byte_offset = 0; byte_length = 9; timestamp = pos 11 } ∷ []);
    global_offset = 2;
  });
  cursor = 2;
  total_snapshots = 3;
  timestamps = pos 7 ∷ pos 9 ∷ pos 11 ∷ [];
}

in_order-IsIndex : IsIndex in_order
unfolding count_all wal_len
in_order-IsIndex = ((refl, omega arith, tt), refl, refl)

abbrev ReadsLater : ℕ → Snapshot → Type 0
ReadsLater i s =
    Reads sum_crc entry_postcard stored_zstd snapshot_postcard interner_postcard later_disk in_order
      i s

reads_7 : ReadsLater 0 (snapshot_of 7)
unfolding snapshot_at resolve_position resolve_chunk resolve_wal chunks_before wal_len
    load_from_chunk find_file chunk_interner open_chunk read_snapshot read_interner load_snapshot
    load_wal_snapshot_at read_wal_frame read_wal_frame_validated framed to_le_bytes from_le_bytes
    slice header_bytes index_bytes entry_bytes i64_bits i64_of_bits index_loop read_entry
reads_7 = refl

reads_9 : ReadsLater 1 (snapshot_of 9)
unfolding snapshot_at resolve_position resolve_chunk resolve_wal chunks_before wal_len
    load_from_chunk find_file chunk_interner open_chunk read_snapshot read_interner load_snapshot
    load_wal_snapshot_at read_wal_frame read_wal_frame_validated framed to_le_bytes from_le_bytes
    slice header_bytes index_bytes entry_bytes i64_bits i64_of_bits index_loop read_entry
reads_9 = refl

reads_11 : ReadsLater 2 (snapshot_of 11)
unfolding snapshot_at resolve_position resolve_chunk resolve_wal chunks_before wal_len
    load_from_chunk find_file chunk_interner open_chunk read_snapshot read_interner load_snapshot
    load_wal_snapshot_at read_wal_frame read_wal_frame_validated framed to_le_bytes from_le_bytes
    slice header_bytes index_bytes entry_bytes i64_bits i64_of_bits index_loop read_entry
reads_11 = refl

in_order_times :
    (i : ℕ) (s : Snapshot) → ReadsLater i s → get_elem? in_order.timestamps i ≡ some s.timestamp
unfolding snapshot_at resolve_position
in_order_times zero s read =
    ap (λ (t : Snapshot). some t.timestamp) (some_injective (sym reads_7 ∙ read))
in_order_times (suc zero) s read =
    ap (λ (t : Snapshot). some t.timestamp) (some_injective (sym reads_9 ∙ read))
in_order_times (suc (suc zero)) s read =
    ap (λ (t : Snapshot). some t.timestamp) (some_injective (sym reads_11 ∙ read))
in_order_times (suc (suc (suc i))) s read = absurd (ground (arith, read))

in_order-IsAligned :
    IsAligned sum_crc entry_postcard stored_zstd snapshot_postcard interner_postcard later_disk
      in_order
in_order-IsAligned =
    (((omega arith, (omega arith, tt)), ((omega arith, tt), (tt, tt))), refl, in_order_times)

floor_finds_example :
    let (q, shown) =
      jump_to_timestamp_floor sum_crc entry_postcard stored_zstd snapshot_postcard interner_postcard
        later_disk
        (pos 10)
        in_order in
    IsPlaced q
    × (shown
        ≡ (snapshot_at sum_crc entry_postcard stored_zstd snapshot_postcard interner_postcard
            later_disk q.cursor in_order).1)
    × ((2 ≤ q.cursor) ↔ (pos 11 ≤ℤ pos 10))
floor_finds_example =
    floor_finds sum_crc entry_postcard stored_zstd snapshot_postcard interner_postcard later_disk
      in_order (pos 10) (snapshot_of 11) 1 in_order-IsIndex in_order-IsAligned reads_11

ceil_finds_example :
    let (q, shown) =
      jump_to_timestamp_ceil sum_crc entry_postcard stored_zstd snapshot_postcard interner_postcard
        later_disk
        (pos 8)
        in_order in
    IsPlaced q
    × (shown
        ≡ (snapshot_at sum_crc entry_postcard stored_zstd snapshot_postcard interner_postcard
            later_disk q.cursor in_order).1)
    × ((1 < q.cursor) ↔ (pos 9 <ℤ pos 8))
ceil_finds_example =
    ceil_finds sum_crc entry_postcard stored_zstd snapshot_postcard interner_postcard later_disk
      in_order (pos 8) (snapshot_of 9) 1 in_order-IsIndex in_order-IsAligned reads_9 (omega arith)

-- The log has the times of the chunk: the floor of 8 is the snapshot of 9, and its ceiling that of 7.
floor_of_8 :
    (jump_to_timestamp_floor sum_crc entry_postcard stored_zstd snapshot_postcard interner_postcard
      disk
      (pos 8)
      started).1
    ≡ some (snapshot_of 9)
unfolding jump_to_timestamp_floor partition_point move_to load_into_buffer buffer_location
    buffer_chunk buffer_wal load_snapshot_with_interner load_entry load_wal_snapshot_with_interner
    snapshot_at resolve_position resolve_chunk resolve_wal chunks_before wal_len load_from_chunk
    find_file chunk_interner open_chunk read_snapshot read_interner load_snapshot
    load_wal_snapshot_at read_wal_frame read_wal_frame_validated framed to_le_bytes from_le_bytes
    slice header_bytes index_bytes entry_bytes i64_bits i64_of_bits index_loop read_entry
floor_of_8 = refl

ceil_of_8 :
    (jump_to_timestamp_ceil sum_crc entry_postcard stored_zstd snapshot_postcard interner_postcard
      disk
      (pos 8)
      started).1
    ≡ some (snapshot_of 7)
unfolding jump_to_timestamp_ceil partition_point move_to load_into_buffer buffer_location
    buffer_chunk buffer_wal load_snapshot_with_interner load_entry load_wal_snapshot_with_interner
    snapshot_at resolve_position resolve_chunk resolve_wal chunks_before wal_len load_from_chunk
    find_file chunk_interner open_chunk read_snapshot read_interner load_snapshot
    load_wal_snapshot_at read_wal_frame read_wal_frame_validated framed to_le_bytes from_le_bytes
    slice header_bytes index_bytes entry_bytes i64_bits i64_of_bits index_loop read_entry
ceil_of_8 = refl
