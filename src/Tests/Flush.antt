-- ===== src/Tests/Flush.antt =====
-- A log of two entries that becomes a chunk.
use rpglot.Prelude.{
  ℕ, zero, suc, ◌<◌, ◌^◌, some, List, [], ◌∷◌, ◌++◌, ◌≡◌, ◌↔◌, refl, arith, length, get_elem?,
}
use rpglot.Prelude.Int.{pos, IsI64, i64_bits}
use rpglot.Prelude.Bytes.{Bytes, to_le_bytes, from_le_bytes, slice}
use rpglot.Prelude.Result.{Result, ok, err}
use rpglot.Model.Snapshot.{Snapshot}
use rpglot.Storage.Interner
use rpglot.Storage.Interner.{StringInterner}
use rpglot.Storage.Hashes.{collect_snapshot_hashes, insert_each}
use rpglot.Storage.Wal.{framed, read_wal_frame, read_wal_frame_validated, load_wal_snapshots}
use rpglot.Storage.Chunk.Write.{
  header_bytes, entry_bytes, index_bytes, overwrite_start, preamble, frames_loop, write_tested,
  write_chunk_inner, raw_of_loaded, write_chunk_with_trained_dict,
}
use rpglot.Storage.Chunk.Read.{ChunkReader, open_chunk, read_interner}
use rpglot.Storage.Flush.{
  FlushError, no_valid_entries, sample, scan_entry, first_pass_loop, train, reread, second_pass,
  chunk_of_wal,
}
use rpglot.Storage.Flush.Kept.{Keeps, flush-Keeps, flush_ends}
use rpglot.Tests.Codecs.{
  sum_crc, entry_postcard, stored_zstd, snapshot_postcard, interner_postcard, snapshot_of,
  one_byte-length,
}
use rpglot.Tests.Wal.{two_frames}

abbrev pub two_snapshots : List Snapshot
two_snapshots = snapshot_of 7 ∷ snapshot_of 9 ∷ []

abbrev pub chunk_file : Bytes
chunk_file =
    header_bytes 2 106 0 104 0
    ++ (index_bytes (
          record { offset = 104; compressed_len = 1; timestamp = pos 7; uncompressed_len = 1 }
          ∷ record { offset = 105; compressed_len = 1; timestamp = pos 9; uncompressed_len = 1 }
          ∷ [])
        ++ 7 ∷ 9 ∷ [])

pub two_loaded :
    load_wal_snapshots sum_crc entry_postcard two_frames
    ≡ some (two_snapshots, record { strings = [] })
unfolding load_wal_snapshots read_wal_frame read_wal_frame_validated framed to_le_bytes
    from_le_bytes slice Interner.new Interner.merge
two_loaded = refl

pub two_flushed :
    chunk_of_wal sum_crc entry_postcard stored_zstd snapshot_postcard interner_postcard 2 two_frames
    ≡ some (ok chunk_file)
unfolding chunk_of_wal first_pass_loop scan_entry sample train reread second_pass read_wal_frame
    read_wal_frame_validated framed to_le_bytes from_le_bytes slice Interner.new Interner.merge
    Interner.filter collect_snapshot_hashes insert_each write_chunk_with_trained_dict
    write_chunk_inner write_tested raw_of_loaded frames_loop preamble overwrite_start header_bytes
    index_bytes entry_bytes i64_bits
two_flushed = refl

pub times_fit : (j : ℕ) (s : Snapshot) → get_elem? two_snapshots j ≡ some s → IsI64 s.timestamp
times_fit zero s h = ground arith
times_fit (suc zero) s h = ground arith
times_fit (suc (suc j)) s h = cc

pub raws_fit :
    (j : ℕ) (s : Snapshot) (raw : Bytes)
    → get_elem? two_snapshots j ≡ some s
    → snapshot_postcard.to_allocvec s ≡ ok raw
    → length raw < 2 ^ 32
raws_fit j s raw h k = omega (arith, one_byte-length s.timestamp s.blocks [] raw k)

flush-Keeps_example :
    (reader : ChunkReader) × (kept : StringInterner) × (open_chunk chunk_file ≡ ok reader)
    × (reader.snapshot_count ≡ 2)
    × (read_interner stored_zstd interner_postcard reader ≡ ok kept)
    × ((i : ℕ) (s : Snapshot)
        → get_elem? two_snapshots i ≡ some s
        → Keeps sum_crc entry_postcard stored_zstd snapshot_postcard interner_postcard reader kept
            (record { strings = [] })
            i
            s)
unfolding header_bytes index_bytes entry_bytes to_le_bytes
flush-Keeps_example =
    flush-Keeps sum_crc entry_postcard stored_zstd snapshot_postcard interner_postcard 2 two_frames
      chunk_file two_snapshots (record { strings = [] }) two_loaded two_flushed (omega arith)
      times_fit raws_fit

flush_ends_example :
    (snapshots : List Snapshot) × (interner : StringInterner) × (result : Result FlushError Bytes)
    × (load_wal_snapshots sum_crc entry_postcard two_frames ≡ some (snapshots, interner))
    × (chunk_of_wal sum_crc entry_postcard stored_zstd snapshot_postcard interner_postcard 2
          two_frames
        ≡ some result)
    × ((result ≡ err no_valid_entries) ↔ (snapshots ≡ []))
flush_ends_example =
    flush_ends sum_crc entry_postcard stored_zstd snapshot_postcard interner_postcard 2 two_frames
