-- ===== src/Storage/Chunk/RoundTrip.antt =====
-- A chunk that was written is read back: the snapshots, their timestamps and the interner.
use rpglot.Prelude.{
  ℕ, zero, suc, ◌+◌, ◌*◌, ◌^◌, ◌≤◌, ◌<◌, List, [], ◌∷◌, ◌++◌, ◌≡◌, refl, sym, ap, ◌∙◌, subst, arith,
  map, length, get_elem?, some, length-map,
}
use rpglot.Prelude.Int.{ℤ}
use rpglot.Prelude.Bytes.{Bytes}
use rpglot.Prelude.Result.{Result, ok, map_err}
use rpglot.Model.Snapshot.{Snapshot}
use rpglot.Storage.Interner.{StringInterner}
use rpglot.Storage.External.{Postcard, Zstd}
use rpglot.Storage.Chunk.Write.{
  ChunkError, external, IndexEntry, header_size, index_entry_size, preamble, write_chunk_inner,
}
use rpglot.Storage.Chunk.Read.{
  ChunkReader, open_chunk, read_chunk_metadata, timestamps, read_entry, read_snapshot,
  read_interner,
}
use rpglot.Storage.Chunk.Stored.{Stored, AllStored}
use rpglot.Storage.Chunk.Opened.{
  written_file, written_reader, file_len, interner_stands, open-written, metadata-written,
}
use rpglot.Storage.Chunk.Parts.{TimesFit, fit-AllStored, Parts, write-Parts}

module _ (zstd : Zstd) (dictionary : Bytes) (get : ℕ → Result ChunkError (Bytes × ℤ))
    (postcard : Postcard StringInterner) where
  -- The reader that a written file opens to.
  abbrev reader_of :
      {count : ℕ} {interner : StringInterner} {file : Bytes}
      → Parts zstd dictionary get postcard count interner file
      → ChunkReader
  reader_of p = written_reader dictionary p.es p.body p.more p.packed

  module _ (count : ℕ) (interner : StringInterner) (file : Bytes)
      (p : Parts zstd dictionary get postcard count interner file)
      (small : length file < 2 ^ 64) where
    grown' : p.body ≡ preamble dictionary (length p.es) ++ p.more
    grown' = p.grown ∙ ap (λ c. preamble dictionary c ++ p.more) (sym p.count_eq)

    small' : length (written_file dictionary p.es p.body p.more p.packed) < 2 ^ 64
    small' = omega (arith, ap length p.file_eq)

    few' : length p.es ≤ 65535
    few' = omega (arith, p.few, p.count_eq)

    opens : TimesFit zstd dictionary get postcard → open_chunk file ≡ ok (reader_of p)
    opens times =
        ap open_chunk p.file_eq
        ∙ open-written dictionary p.es p.body p.more p.packed grown' few' small' (
            fit-AllStored zstd dictionary get postcard file (header_size + count * index_entry_size)
              0 p.es times small p.stored)

    metadata :
        TimesFit zstd dictionary get postcard
        → read_chunk_metadata file
          ≡ ok (record { snapshot_count = count; timestamps = timestamps (reader_of p) })
    unfolding timestamps
    metadata times =
        ap read_chunk_metadata p.file_eq
        ∙ metadata-written dictionary p.es p.body p.more p.packed grown' few' small' (
            fit-AllStored zstd dictionary get postcard file (header_size + count * index_entry_size)
              0 p.es times small p.stored)
        ∙ λ i.
            ok (record { snapshot_count = p.count_eq i; timestamps = map (λ e. e.timestamp) p.es })

    interner_read : read_interner zstd postcard (reader_of p) ≡ ok interner
    unfolding read_interner
    interner_read = ground (
      arith,
      interner_stands dictionary p.es p.body p.more p.packed grown',
      file_len dictionary p.es p.body p.more p.packed grown',
      small',
      zstd.decode-encode_all p.raw_interner p.packed p.encoded,
      postcard.from_bytes-to_allocvec interner p.raw_interner p.serialized,
    )

  nth_Stored :
      (file : Bytes) (lo j i : ℕ) (es : List IndexEntry)
      → AllStored zstd dictionary get file lo j es
      → i < length es
      → (e : IndexEntry) × (get_elem? es i ≡ some e) × Stored zstd dictionary get file lo (j + i) e
  nth_Stored file lo j i [] s h = absurd (omega arith)
  nth_Stored file lo j zero (e ∷ es) (s, rest) h =
      (e, refl, subst (λ k. Stored zstd dictionary get file lo k e) (omega arith) s)
  nth_Stored file lo j (suc i) (e ∷ es) (s, rest) h =
      let (d, found, stored) = nth_Stored file lo (suc j) i es rest (omega arith) in
      (d, found, subst (λ k. Stored zstd dictionary get file lo k d) (omega arith) stored)

  -- A stored snapshot is unpacked to what was stored.
  read_entry-Stored :
      (snapshots : Postcard Snapshot) (reader : ChunkReader) (lo i : ℕ) (e : IndexEntry)
      (s : Stored zstd dictionary get reader.contents lo i e)
      → reader.decoder_dict ≡ dictionary
      → length reader.contents < 2 ^ 64
      → length s.raw < 2 ^ 32
      → read_entry zstd snapshots reader e ≡ map_err external (snapshots.from_bytes s.raw)
  unfolding read_entry
  read_entry-Stored snapshots reader lo i e s dict small fits = ground (
    arith,
    s.stands,
    s.within,
    s.raw_len,
    zstd.decompress-compress dictionary s.raw s.packed e.uncompressed_len s.compressed
        (omega (arith, s.raw_len)),
  )

  -- A chunk that write_chunk_inner wrote opens: the reader has the count that was given and as many
  -- timestamps, read_interner reads the interner that was given, and read_chunk_metadata reads the
  -- reader's count and timestamps from the file. The file is below 2 ^ 64 bytes, and every snapshot
  -- that the closure gives has an `i64` for its timestamp.
  pub open-write :
      (count : ℕ) (interner : StringInterner) (file : Bytes)
      → write_chunk_inner zstd dictionary get postcard count interner ≡ ok file
      → length file < 2 ^ 64
      → TimesFit zstd dictionary get postcard
      → (reader : ChunkReader) × (open_chunk file ≡ ok reader)
        × (reader.snapshot_count ≡ count)
        × (length (timestamps reader) ≡ count)
        × (read_interner zstd postcard reader ≡ ok interner)
        × (read_chunk_metadata file
            ≡ ok (record { snapshot_count = count; timestamps = timestamps reader }))
  unfolding timestamps
  open-write count interner file h small times =
      let p = write-Parts zstd dictionary get postcard count interner file h in
      (
        reader_of p,
        opens count interner file p small times,
        p.count_eq,
        length-map (λ (e : IndexEntry). e.timestamp) p.es ∙ p.count_eq,
        interner_read count interner file p small,
        metadata count interner file p small times,
      )

  read_snapshot_at :
      (snapshots : Postcard Snapshot) (reader : ChunkReader) (i : ℕ) (e : IndexEntry)
      → i < reader.snapshot_count
      → get_elem? reader.index i ≡ some e
      → read_snapshot zstd snapshots reader i ≡ read_entry zstd snapshots reader e
  unfolding read_snapshot
  read_snapshot_at snapshots reader i e below found = ground arith

  get_elem?-timestamps :
      (es : List IndexEntry) (i : ℕ) (e : IndexEntry)
      → get_elem? es i ≡ some e
      → get_elem? (map (λ d. d.timestamp) es) i ≡ some e.timestamp
  get_elem?-timestamps [] i e h = cc
  get_elem?-timestamps (d ∷ es) zero e h = ground arith
  get_elem?-timestamps (d ∷ es) (suc i) e h = get_elem?-timestamps es i e h

  -- What the reader of a written chunk has for snapshot `i`.
  abbrev Reads : Postcard Snapshot → ℕ → ChunkReader → Type 0
  Reads snapshots i reader =
      (raw : Bytes) × (time : ℤ) × (get i ≡ ok (raw, time))
      × (get_elem? (timestamps reader) i ≡ some time)
      × (read_snapshot zstd snapshots reader i ≡ map_err external (snapshots.from_bytes raw))

  Reads-part :
      (snapshots : Postcard Snapshot) (count i : ℕ) (interner : StringInterner) (file : Bytes)
      (p : Parts zstd dictionary get postcard count interner file)
      → length file < 2 ^ 64
      → ((j : ℕ) (raw : Bytes) (time : ℤ) → get j ≡ ok (raw, time) → length raw < 2 ^ 32)
      → i < count
      → Reads snapshots i (reader_of p)
  unfolding timestamps
  Reads-part snapshots count i interner file p small raws below =
      let start = header_size + count * index_entry_size in
      let inside : i < length p.es = omega (arith, p.count_eq) in
      let (e, found, s) = nth_Stored file start 0 i p.es p.stored inside in
      let got : get i ≡ ok (s.raw, e.timestamp) = ap get (omega arith) ∙ s.got in
      let here = subst (λ b. Stored zstd dictionary get b start (0 + i) e) p.file_eq s in
      (
        here.raw,
        e.timestamp,
        ap get (omega arith) ∙ here.got,
        get_elem?-timestamps p.es i e found,
        read_snapshot_at snapshots (reader_of p) i e inside found
            ∙ read_entry-Stored snapshots (reader_of p) start (0 + i) e here refl
                (omega (arith, ap length p.file_eq)) (raws (0 + i) here.raw e.timestamp here.got),
      )

  pub read-write_raw :
      (snapshots : Postcard Snapshot) (count i : ℕ) (interner : StringInterner) (file : Bytes)
      (reader : ChunkReader)
      → write_chunk_inner zstd dictionary get postcard count interner ≡ ok file
      → length file < 2 ^ 64
      → TimesFit zstd dictionary get postcard
      → ((j : ℕ) (raw : Bytes) (time : ℤ) → get j ≡ ok (raw, time) → length raw < 2 ^ 32)
      → open_chunk file ≡ ok reader
      → i < count
      → Reads snapshots i reader
  read-write_raw snapshots count i interner file reader h small times raws opened below =
      let p = write-Parts zstd dictionary get postcard count interner file h in
      subst (Reads snapshots i) (cc (opens count interner file p small times))
        (Reads-part snapshots count i interner file p small raws below)
