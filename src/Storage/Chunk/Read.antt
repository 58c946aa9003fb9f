-- ===== src/Storage/Chunk/Read.antt =====
-- chunk.rs, read_chunk_metadata and ChunkReader. `usize` and `u64` have 64 bits: a sum wraps.
use rpglot.Prelude.{
  ℕ, zero, suc, ◌+◌, ◌-◌, ◌*◌, ◌%◌, ◌^◌, Bool, true, false, not, List, [], ◌∷◌, map, length, ltb,
  leb, ◌==◌, ◌&&◌, if◌then◌else◌, get_elem?, none, some,
}
use rpglot.Prelude.Int.{ℤ, i64_of_bits}
use rpglot.Prelude.Bytes.{Bytes, from_le_bytes, slice}
use rpglot.Prelude.Result.{Result, ok, err, map_err, ◌>>=◌}
use rpglot.Model.Snapshot.{Snapshot}
use rpglot.Storage.External.{Postcard, Zstd}
use rpglot.Storage.Interner.{StringInterner}
use rpglot.Storage.Chunk.Write.{
  ChunkError, too_small_for_header, too_small_for_index, dictionary_past_end, invalid_magic,
  unsupported_version, index_out_of_range, frame_past_end, interner_past_end, external, panicked,
  IndexEntry, magic, version, header_size, index_entry_size,
}

unfoldable pub bytes_eq : Bytes → Bytes → Bool
bytes_eq [] [] = true
bytes_eq (a ∷ as') (b ∷ bs) = a == b && bytes_eq as' bs
bytes_eq _ _ = false

pub record ChunkMetadata : Type 0 where
  pub snapshot_count : ℕ
  pub timestamps : List ℤ

-- The timestamps of `remaining` entries, from entry `i` on, in the bytes of the index.
unfoldable pub timestamps_loop : Bytes → ℕ → ℕ → List ℤ
timestamps_loop index_buf zero i = []
timestamps_loop index_buf (suc remaining) i =
    i64_of_bits (from_le_bytes (slice index_buf (i * index_entry_size + 16) 8))
    ∷ timestamps_loop index_buf remaining (suc i)

-- A file that is too short for the header or the index is an error of `read_exact`.
unfoldable pub read_chunk_metadata : Bytes → Result ChunkError ChunkMetadata
unfolding bytes_eq
read_chunk_metadata file =
    if ltb (length file) header_size
    then err too_small_for_header
    else let header = slice file 0 header_size in
      if not (bytes_eq (slice header 0 4) magic)
      then err (invalid_magic (slice header 0 4))
      else if not (from_le_bytes (slice header 4 2) == version)
      then err (unsupported_version (from_le_bytes (slice header 4 2)))
      else let snapshot_count = from_le_bytes (slice header 6 2) in
        let index_size = snapshot_count * index_entry_size in
        if ltb (length file) (header_size + index_size)
        then err too_small_for_index
        else let index_buf = slice file header_size index_size in
          ok (record {
            snapshot_count = snapshot_count;
            timestamps = timestamps_loop index_buf snapshot_count 0;
          })

-- The prepared dictionary is the bytes that it was made of.
pub record ChunkReader : Type 0 where
  pub snapshot_count : ℕ
  pub index : List IndexEntry
  pub interner_offset : ℕ
  pub interner_compressed_len : ℕ
  pub decoder_dict : Bytes
  pub contents : Bytes

unfoldable pub parse_entry : Bytes → ℕ → IndexEntry
parse_entry bytes base = record {
  offset = from_le_bytes (slice bytes base 8);
  compressed_len = from_le_bytes (slice bytes (base + 8) 8);
  timestamp = i64_of_bits (from_le_bytes (slice bytes (base + 16) 8));
  uncompressed_len = from_le_bytes (slice bytes (base + 24) 4);
}

unfoldable pub index_loop : Bytes → ℕ → ℕ → List IndexEntry
unfolding parse_entry
index_loop bytes zero i = []
index_loop bytes (suc remaining) i =
    parse_entry bytes (header_size + i * index_entry_size) ∷ index_loop bytes remaining (suc i)

-- `&data[start..end]` behind a test that `end` is within the data: it panics where `end < start`.
unfoldable pub checked_slice : Bytes → ℕ → ℕ → Result ChunkError Bytes
checked_slice bytes start end =
    if ltb end start then err panicked else ok (slice bytes start (end - start))

unfoldable pub open_chunk : Bytes → Result ChunkError ChunkReader
unfolding bytes_eq checked_slice
open_chunk bytes =
    if ltb (length bytes) header_size
    then err too_small_for_header
    else if not (bytes_eq (slice bytes 0 4) magic)
    then err (invalid_magic (slice bytes 0 4))
    else if not (from_le_bytes (slice bytes 4 2) == version)
    then err (unsupported_version (from_le_bytes (slice bytes 4 2)))
    else let snapshot_count = from_le_bytes (slice bytes 6 2) in
      let dict_start = from_le_bytes (slice bytes 24 8) in
      let dict_end = (dict_start + from_le_bytes (slice bytes 32 8)) % 2 ^ 64 in
      if ltb (length bytes) (header_size + snapshot_count * index_entry_size)
      then err too_small_for_index
      else if ltb (length bytes) dict_end
      then err dictionary_past_end
      else (do
        dictionary ← checked_slice bytes dict_start dict_end
        ok (record {
          snapshot_count = snapshot_count;
          index = index_loop bytes snapshot_count 0;
          interner_offset = from_le_bytes (slice bytes 8 8);
          interner_compressed_len = from_le_bytes (slice bytes 16 8);
          decoder_dict = dictionary;
          contents = bytes;
        }))

unfoldable pub timestamps : ChunkReader → List ℤ
timestamps reader = map (λ e. e.timestamp) reader.index

module _ (zstd : Zstd) where
  -- The frame of one index entry, unpacked and parsed.
  unfoldable pub read_entry :
      Postcard Snapshot → ChunkReader → IndexEntry → Result ChunkError Snapshot
  unfolding checked_slice
  read_entry postcard reader e =
      let end = (e.offset + e.compressed_len) % 2 ^ 64 in
      if ltb (length reader.contents) end then err frame_past_end else (do
        packed ← checked_slice reader.contents e.offset end
        raw ← map_err external (zstd.decompress reader.decoder_dict packed e.uncompressed_len)
        map_err external (postcard.from_bytes raw))

  unfoldable pub read_snapshot : Postcard Snapshot → ChunkReader → ℕ → Result ChunkError Snapshot
  read_snapshot postcard reader i =
      if leb reader.snapshot_count i
      then err (index_out_of_range i)
      else elim (get_elem? reader.index i) [
        | some e ↦ read_entry postcard reader e
        | none ↦ err panicked
      ]

  unfoldable pub read_interner :
      Postcard StringInterner → ChunkReader → Result ChunkError StringInterner
  unfolding checked_slice
  read_interner postcard reader =
      let end = (reader.interner_offset + reader.interner_compressed_len) % 2 ^ 64 in
      if ltb (length reader.contents) end then err interner_past_end else (do
        packed ← checked_slice reader.contents reader.interner_offset end
        raw ← map_err external (zstd.decode_all packed)
        map_err external (postcard.from_bytes raw))
