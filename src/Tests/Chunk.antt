-- ===== src/Tests/Chunk.antt =====
-- A chunk of two snapshots.
use rpglot.Prelude.{
  ℕ, zero, suc, ◌^◌, ◌<◌, some, [], ◌∷◌, ◌++◌, ◌≡◌, refl, arith, length, get_elem?,
}
use rpglot.Prelude.Int.{pos, IsI64, i64_bits, i64_of_bits}
use rpglot.Prelude.Bytes.{Bytes, to_le_bytes, from_le_bytes, slice}
use rpglot.Prelude.Result.{Result, ok, err}
use rpglot.Model.Snapshot.{Snapshot}
use rpglot.Storage.Interner.{StringInterner}
use rpglot.Storage.Chunk.Write.{
  ChunkError, panicked, header_bytes, entry_bytes, index_bytes, overwrite_start, preamble,
  frames_loop, raw_of_loaded, write_tested, write_chunk_inner, write_chunk_with_trained_dict,
}
use rpglot.Storage.Chunk.Read.{ChunkReader, open_chunk, timestamps, index_loop, read_snapshot}
use rpglot.Storage.Chunk.Parts.{TimesFit}
use rpglot.Storage.Chunk.Loaded.{read-write}
use rpglot.Tests.Codecs.{
  stored_zstd, snapshot_postcard, interner_postcard, snapshot_of, one_byte-length,
}

abbrev load_two : ℕ → Result ChunkError Snapshot
load_two zero = ok (snapshot_of 7)
load_two (suc zero) = ok (snapshot_of 9)
load_two _ = err panicked

abbrev no_strings : StringInterner
no_strings = record { strings = [] }

abbrev dictionary : Bytes
dictionary = 1 ∷ 2 ∷ 3 ∷ []

-- The two frames stand behind the header, the index of two entries and the dictionary.
abbrev two_file : Bytes
two_file =
    header_bytes 2 109 0 104 3
    ++ (index_bytes (
          record { offset = 107; compressed_len = 1; timestamp = pos 7; uncompressed_len = 1 }
          ∷ record { offset = 108; compressed_len = 1; timestamp = pos 9; uncompressed_len = 1 }
          ∷ [])
        ++ (dictionary ++ 7 ∷ 9 ∷ []))

abbrev two_reader : ChunkReader
two_reader = record {
  snapshot_count = 2;
  index =
      record { offset = 107; compressed_len = 1; timestamp = pos 7; uncompressed_len = 1 }
      ∷ record { offset = 108; compressed_len = 1; timestamp = pos 9; uncompressed_len = 1 }
      ∷ [];
  interner_offset = 109;
  interner_compressed_len = 0;
  decoder_dict = dictionary;
  contents = two_file;
}

two_written :
    write_chunk_with_trained_dict stored_zstd snapshot_postcard interner_postcard 2 dictionary
      load_two no_strings
    ≡ ok two_file
unfolding write_chunk_with_trained_dict write_chunk_inner write_tested raw_of_loaded frames_loop
    preamble overwrite_start header_bytes index_bytes entry_bytes i64_bits to_le_bytes
two_written = refl

two_opened : open_chunk two_file ≡ ok two_reader
unfolding open_chunk index_loop header_bytes index_bytes entry_bytes i64_bits i64_of_bits
    to_le_bytes from_le_bytes slice
two_opened = refl

times_fit : (j : ℕ) (s : Snapshot) → load_two j ≡ ok s → IsI64 s.timestamp
times_fit zero s h = ground arith
times_fit (suc zero) s h = ground arith
times_fit (suc (suc j)) s h = cc

raws_fit :
    (j : ℕ) (s : Snapshot) (raw : Bytes)
    → load_two j ≡ ok s
    → snapshot_postcard.to_allocvec s ≡ ok raw
    → length raw < 2 ^ 32
raws_fit j s raw h k = omega (arith, one_byte-length s.timestamp s.blocks [] raw k)

read-write_example :
    (s : Snapshot) × (load_two 1 ≡ ok s)
    × (read_snapshot stored_zstd snapshot_postcard two_reader 1 ≡ ok s)
    × (get_elem? (timestamps two_reader) 1 ≡ some s.timestamp)
unfolding header_bytes index_bytes entry_bytes to_le_bytes
read-write_example =
    read-write stored_zstd snapshot_postcard interner_postcard 2 1 dictionary load_two no_strings
      two_file two_reader two_written (omega arith) times_fit raws_fit two_opened (omega arith)

raw_times_fit :
    TimesFit stored_zstd dictionary
      (raw_of_loaded stored_zstd snapshot_postcard interner_postcard load_two)
      interner_postcard
unfolding raw_of_loaded
raw_times_fit zero raw time h = ground arith
raw_times_fit (suc zero) raw time h = ground arith
raw_times_fit (suc (suc j)) raw time h = cc

two_written_inner :
    write_chunk_inner stored_zstd dictionary
      (raw_of_loaded stored_zstd snapshot_postcard interner_postcard load_two)
      interner_postcard
      2
      no_strings
    ≡ ok two_file
unfolding write_chunk_with_trained_dict
two_written_inner = two_written
