-- ===== src/Storage/Chunk/Write.antt =====
-- chunk.rs, write_chunk_inner and its callers.
use rpglot.Prelude.{
  ℕ, zero, suc, ◌+◌, ◌*◌, ◌%◌, ◌^◌, String, List, [], ◌∷◌, ◌++◌, length, drop, replicate, ltb, ◌==◌,
  if◌then◌else◌,
}
use rpglot.Prelude.Int.{ℤ, i64_bits}
use rpglot.Prelude.Bytes.{Bytes, to_le_bytes}
use rpglot.Prelude.Result.{Result, ok, err, map_err, ◌>>=◌}
use rpglot.Model.Snapshot.{Snapshot}
use rpglot.Storage.External.{Postcard, Zstd}
use rpglot.Storage.Interner.{StringInterner}

abbrev pub magic : Bytes
magic = b'R' ∷ b'P' ∷ b'G' ∷ b'6' ∷ []

abbrev pub version : ℕ
version = 6

abbrev pub header_size : ℕ
header_size = 48

abbrev pub index_entry_size : ℕ
index_entry_size = 28

abbrev pub dict_max_size : ℕ
dict_max_size = 112 * 1024

-- The errors of the module. `panicked` is an index out of range in a slice.
pub data ChunkError : Type 0 where
  too_small_for_header too_small_for_index dictionary_past_end : ChunkError
  invalid_magic : Bytes → ChunkError
  unsupported_version : ℕ → ChunkError
  index_out_of_range : ℕ → ChunkError
  frame_past_end interner_past_end : ChunkError
  empty_chunk too_many_snapshots : ChunkError
  external : String → ChunkError
  panicked : ChunkError

-- (byte_offset, compressed_len, timestamp, uncompressed_len)
pub record IndexEntry : Type 0 where
  pub offset : ℕ
  pub compressed_len : ℕ
  pub timestamp : ℤ
  pub uncompressed_len : ℕ

-- The header, in the order of its fields; the last 8 bytes are reserved.
unfoldable pub header_bytes : ℕ → ℕ → ℕ → ℕ → ℕ → Bytes
unfolding to_le_bytes
header_bytes count interner_offset interner_compressed_len dict_offset dict_len =
    magic
    ++ (to_le_bytes 2 version
        ++ (to_le_bytes 2 count
            ++ (to_le_bytes 8 interner_offset
                ++ (to_le_bytes 8 interner_compressed_len
                    ++ (to_le_bytes 8 dict_offset ++ (to_le_bytes 8 dict_len ++ replicate 8 0))))))

unfoldable pub entry_bytes : IndexEntry → Bytes
unfolding to_le_bytes
entry_bytes e =
    to_le_bytes 8 e.offset
    ++ (to_le_bytes 8 e.compressed_len
        ++ (to_le_bytes 8 (i64_bits e.timestamp) ++ to_le_bytes 4 e.uncompressed_len))

unfoldable pub index_bytes : List IndexEntry → Bytes
index_bytes [] = []
index_bytes (e ∷ es) = entry_bytes e ++ index_bytes es

-- A write from the start of the file, over what stands there.
unfoldable pub overwrite_start : Bytes → Bytes → Bytes
overwrite_start start file = start ++ drop (length start) file

-- The placeholders of the header and the index, and the dictionary.
unfoldable pub preamble : Bytes → ℕ → Bytes
preamble dictionary snapshot_count =
    replicate header_size 0 ++ (replicate (snapshot_count * index_entry_size) 0 ++ dictionary)

module _ (zstd : Zstd) (dictionary : Bytes)
    (get_raw_snapshot : ℕ → Result ChunkError (Bytes × ℤ)) where
  -- The loop over the snapshots from `i` on, `remaining` of them, behind what the file holds.
  unfoldable pub frames_loop : ℕ → ℕ → Bytes → Result ChunkError (Bytes × List IndexEntry)
  frames_loop zero i file = ok (file, [])
  frames_loop (suc remaining) i file = get_raw_snapshot i >>= λ got.
      map_err external (zstd.compress dictionary got.0) >>= λ compressed.
      frames_loop remaining (suc i) (file ++ compressed) >>= λ rest. ok (
        rest.0,
        record {
          offset = length file;
          compressed_len = length compressed;
          timestamp = got.1;
          uncompressed_len = length got.0 % 2 ^ 32;
        }
            ∷ rest.1,
      )

  module _ (postcard : Postcard StringInterner) where
    -- Everything behind the two tests of the count.
    unfoldable pub write_tested : ℕ → StringInterner → Result ChunkError Bytes
    write_tested snapshot_count interner = do
      written ← frames_loop snapshot_count 0 (preamble dictionary snapshot_count)
      raw_interner ← map_err external (postcard.to_allocvec interner)
      packed ← map_err external (zstd.encode_all raw_interner)
      let header =
          header_bytes snapshot_count (length written.0) (length packed)
            (header_size + snapshot_count * index_entry_size) (length dictionary)
      ok (overwrite_start (header ++ index_bytes written.1) (written.0 ++ packed))

    unfoldable pub write_chunk_inner : ℕ → StringInterner → Result ChunkError Bytes
    write_chunk_inner snapshot_count interner =
        if snapshot_count == 0
        then err empty_chunk
        else if ltb 65535 snapshot_count
        then err too_many_snapshots
        else write_tested snapshot_count interner

-- `collect` of the serialized snapshots: the first failure ends it.
unfoldable pub serialize_all : Postcard Snapshot → List Snapshot → Result ChunkError (List Bytes)
serialize_all postcard [] = ok []
serialize_all postcard (s ∷ snapshots) =
    let rest = serialize_all postcard snapshots in
    map_err external (postcard.to_allocvec s) >>= λ raw. rest >>= λ raws. ok (raw ∷ raws)

-- `unwrap_or_default`
abbrev pub bytes_or_empty : Result String Bytes → Bytes
bytes_or_empty (ok b) = b
bytes_or_empty (err _) = []

-- `raw_snapshots[i]` with `snapshots[i].timestamp`
unfoldable pub nth_raw : List Bytes → List Snapshot → ℕ → Result ChunkError (Bytes × ℤ)
nth_raw (raw ∷ raws) (s ∷ snapshots) zero = ok (raw, s.timestamp)
nth_raw (raw ∷ raws) (s ∷ snapshots) (suc i) = nth_raw raws snapshots i
nth_raw _ _ _ = err panicked

module _ (zstd : Zstd) (snapshot_postcard : Postcard Snapshot)
    (interner_postcard : Postcard StringInterner) where
  unfoldable pub write_chunk : List Snapshot → StringInterner → Result ChunkError Bytes
  write_chunk snapshots interner = do
    raw_snapshots ← serialize_all snapshot_postcard snapshots
    let dictionary = bytes_or_empty (zstd.from_samples raw_snapshots dict_max_size)
    write_chunk_inner zstd dictionary (nth_raw raw_snapshots snapshots) interner_postcard
        (length snapshots) interner

  -- The closure that loads a snapshot and serializes it.
  unfoldable pub raw_of_loaded :
      (ℕ → Result ChunkError Snapshot) → ℕ → Result ChunkError (Bytes × ℤ)
  raw_of_loaded load_snapshot i = do
    snapshot ← load_snapshot i
    raw ← map_err external (snapshot_postcard.to_allocvec snapshot)
    ok (raw, snapshot.timestamp)

  -- The snapshots come one at a time from `load_snapshot`.
  unfoldable pub write_chunk_with_trained_dict :
      ℕ → Bytes → (ℕ → Result ChunkError Snapshot) → StringInterner → Result ChunkError Bytes
  write_chunk_with_trained_dict snapshot_count dictionary load_snapshot interner =
      write_chunk_inner zstd dictionary (raw_of_loaded load_snapshot) interner_postcard
        snapshot_count interner
