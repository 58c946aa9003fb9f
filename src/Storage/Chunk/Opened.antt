-- ===== src/Storage/Chunk/Opened.antt =====
-- What ChunkReader::open and read_chunk_metadata return for a file that was written.
use rpglot.Prelude.{
  ℕ, ◌+◌, ◌*◌, ◌^◌, ◌≤◌, ◌<◌, List, [], ◌++◌, ◌≡◌, refl, sym, ap, ◌∙◌, subst, arith, map, length,
  drop, replicate, length-append, length-replicate, append_assoc, append-nil,
}
use rpglot.Prelude.Bytes.{Bytes, from_le_bytes, slice, slice_at, from-to_le_bytes, slice_of_slice}
use rpglot.Prelude.Result.{ok}
use rpglot.Storage.Chunk.Write.{
  IndexEntry, magic, version, header_size, index_entry_size, header_bytes, index_bytes,
  overwrite_start, preamble,
}
use rpglot.Storage.Chunk.Read.{
  ChunkReader, read_chunk_metadata, open_chunk, checked_slice, index_loop, timestamps_loop,
}
use rpglot.Storage.Chunk.Layout.{
  HeaderFields, header_fields, length-header_bytes, length-index_bytes, AllFit, index_loop_at,
  timestamps_loop_at,
}
use rpglot.Storage.Chunk.Stored.{slice-overwrite_start, length-overwrite_start}

-- `open_chunk` by the fields that it reads.
open_by_fields :
    (bytes dictionary : Bytes) (es : List IndexEntry) (count io il dict_start dict_len : ℕ)
    → slice bytes 0 4 ≡ magic
    → from_le_bytes (slice bytes 4 2) ≡ version
    → from_le_bytes (slice bytes 6 2) ≡ count
    → from_le_bytes (slice bytes 8 8) ≡ io
    → from_le_bytes (slice bytes 16 8) ≡ il
    → from_le_bytes (slice bytes 24 8) ≡ dict_start
    → from_le_bytes (slice bytes 32 8) ≡ dict_len
    → header_size + count * index_entry_size ≤ length bytes
    → dict_start + dict_len ≤ length bytes
    → length bytes < 2 ^ 64
    → slice bytes dict_start dict_len ≡ dictionary
    → index_loop bytes count 0 ≡ es
    → open_chunk bytes
      ≡ ok (record {
        snapshot_count = count;
        index = es;
        interner_offset = io;
        interner_compressed_len = il;
        decoder_dict = dictionary;
        contents = bytes;
      })
unfolding open_chunk
open_by_fields bytes dictionary es count io il dict_start dict_len m v c a b d e h k small dict
      idx =
    ground arith

metadata_by_fields :
    (bytes : Bytes) (count : ℕ)
    → slice bytes 0 4 ≡ magic
    → from_le_bytes (slice bytes 4 2) ≡ version
    → from_le_bytes (slice bytes 6 2) ≡ count
    → header_size + count * index_entry_size ≤ length bytes
    → read_chunk_metadata bytes
      ≡ ok (record {
        snapshot_count = count;
        timestamps = timestamps_loop (slice bytes header_size (count * index_entry_size)) count 0;
      })
unfolding read_chunk_metadata
metadata_by_fields bytes count m v c h = ground (
  arith,
  slice_of_slice bytes header_size 0 4 (omega arith) (omega arith),
  slice_of_slice bytes header_size 4 2 (omega arith) (omega arith),
  slice_of_slice bytes header_size 6 2 (omega arith) (omega arith),
)

-- A written file, in parts: the bytes that the loop left, and the interner frame behind them.
module _ (dictionary : Bytes) (es : List IndexEntry) (body more packed : Bytes) where
  abbrev count : ℕ
  count = length es

  abbrev start_len : ℕ
  start_len = header_size + count * index_entry_size

  abbrev header : Bytes
  header = header_bytes count (length body) (length packed) start_len (length dictionary)

  abbrev pub written_file : Bytes
  written_file = overwrite_start (header ++ index_bytes es) (body ++ packed)

  abbrev pub written_reader : ChunkReader
  written_reader = record {
    snapshot_count = count;
    index = es;
    interner_offset = length body;
    interner_compressed_len = length packed;
    decoder_dict = dictionary;
    contents = written_file;
  }

  length-start : length (header ++ index_bytes es) ≡ start_len
  length-start = omega (
    arith,
    length-append header (index_bytes es),
    length-header_bytes count (length body) (length packed) start_len (length dictionary),
    length-index_bytes es,
  )

  abbrev tail : Bytes
  tail = drop (length (header ++ index_bytes es)) (body ++ packed)

  written-split : written_file ≡ header ++ (index_bytes es ++ tail)
  unfolding overwrite_start
  written-split = append_assoc header (index_bytes es) tail

  module _ (grown : body ≡ preamble dictionary count ++ more) where
    body_len : length body ≡ start_len + length dictionary + length more
    unfolding preamble
    body_len = omega (
      arith,
      ap length grown,
      length-append (preamble dictionary count) more,
      length-append {A = ℕ} (replicate header_size 0)
          (replicate (count * index_entry_size) 0 ++ dictionary),
      length-append {A = ℕ} (replicate (count * index_entry_size) 0) dictionary,
      length-replicate {A = ℕ} header_size 0,
      length-replicate {A = ℕ} (count * index_entry_size) 0,
    )

    pub file_len : length written_file ≡ length body + length packed
    file_len =
        length-overwrite_start (header ++ index_bytes es) (body ++ packed)
          (omega (arith, body_len, length-start, length-append body packed))
        ∙ length-append body packed

    body_split :
        body ++ packed
        ≡ (replicate header_size 0 ++ replicate (count * index_entry_size) 0)
          ++ (dictionary ++ (more ++ packed))
    unfolding preamble
    body_split = rw grown (simp append_assoc)

    dictionary_stands : slice written_file start_len (length dictionary) ≡ dictionary
    dictionary_stands =
        slice-overwrite_start (header ++ index_bytes es) (body ++ packed) start_len
          (length dictionary) (omega (arith, body_len, length-start, length-append body packed))
          (omega (arith, length-start))
        ∙ ap (λ b. slice b start_len (length dictionary)) body_split
        ∙ slice_at (replicate header_size 0 ++ replicate (count * index_entry_size) 0) dictionary
            (more ++ packed) start_len (length dictionary)
            (omega (
              arith,
              length-append {A = ℕ} (replicate header_size 0)
                  (replicate (count * index_entry_size) 0),
              length-replicate {A = ℕ} header_size 0,
              length-replicate {A = ℕ} (count * index_entry_size) 0,
            ))
            refl

    pub interner_stands : slice written_file (length body) (length packed) ≡ packed
    interner_stands =
        slice-overwrite_start (header ++ index_bytes es) (body ++ packed) (length body)
          (length packed) (omega (arith, body_len, length-start, length-append body packed))
          (omega (arith, body_len, length-start))
        ∙ ap (λ b. slice b (length body) (length packed)) (ap (◌++◌ body) (sym (append-nil packed)))
        ∙ slice_at body packed [] (length body) (length packed) refl refl

    module _ (few : count ≤ 65535) (small : length written_file < 2 ^ 64) (fits : AllFit es) where
      index_stands : index_loop written_file count 0 ≡ es
      index_stands =
          ap (λ b. index_loop b count 0) written-split
          ∙ index_loop_at header tail es 0
              (length-header_bytes count (length body) (length packed) start_len (length dictionary)
                ∙ omega arith)
              fits

      fields :
          HeaderFields written_file count
            (length body)
            (length packed)
            start_len
            (length dictionary)
      fields =
          subst
            (λ b. HeaderFields b count (length body) (length packed) start_len (length dictionary))
            (sym written-split)
            (header_fields count (length body) (length packed) start_len (length dictionary)
              (index_bytes es ++ tail))

      times :
          timestamps_loop (slice written_file header_size (count * index_entry_size)) count 0
          ≡ map (λ e. e.timestamp) es
      times =
          ap (λ b. timestamps_loop (slice b header_size (count * index_entry_size)) count 0)
            written-split
          ∙ ap (λ b. timestamps_loop b count 0)
              (slice_at header (index_bytes es) tail header_size (count * index_entry_size)
                  (sym (
                    length-header_bytes count (length body) (length packed) start_len
                      (length dictionary)))
                  (sym (length-index_bytes es))
                ∙ sym (append-nil (index_bytes es)))
          ∙ timestamps_loop_at [] [] es 0 (omega arith) fits

      -- A written chunk opens, and the reader has what was written.
      pub open-written : open_chunk written_file ≡ ok written_reader
      unfolding open_chunk checked_slice
      open-written =
          open_by_fields written_file dictionary es count (length body) (length packed) start_len
            (length dictionary) fields.0
            (ap from_le_bytes fields.1 ∙ from-to_le_bytes 2 version (omega arith))
            (ap from_le_bytes fields.2 ∙ from-to_le_bytes 2 count (omega arith))
            (ap from_le_bytes fields.3 ∙ from-to_le_bytes 8 (length body) (omega (arith, file_len)))
            (ap from_le_bytes fields.4
              ∙ from-to_le_bytes 8 (length packed) (omega (arith, file_len)))
            (ap from_le_bytes fields.5 ∙ from-to_le_bytes 8 start_len (omega arith))
            (ap from_le_bytes fields.6
              ∙ from-to_le_bytes 8 (length dictionary) (omega (arith, body_len, file_len)))
            (omega (arith, body_len, file_len)) (omega (arith, body_len, file_len)) small
            dictionary_stands index_stands

      -- Its metadata are the count and the timestamps of the index.
      pub metadata-written :
          read_chunk_metadata written_file
          ≡ ok (record { snapshot_count = count; timestamps = map (λ e. e.timestamp) es })
      metadata-written =
          metadata_by_fields written_file count fields.0
            (ap from_le_bytes fields.1 ∙ from-to_le_bytes 2 version (omega arith))
            (ap from_le_bytes fields.2 ∙ from-to_le_bytes 2 count (omega arith))
            (omega (arith, body_len, file_len))
          ∙ λ i. ok (record { snapshot_count = count; timestamps = times i })
