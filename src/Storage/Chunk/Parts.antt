-- ===== src/Storage/Chunk/Parts.antt =====
-- The parts of a file that write_chunk_inner wrote.
use rpglot.Prelude.{
  ℕ, suc, ◌+◌, ◌*◌, ◌^◌, ◌≤◌, ◌<◌, List, [], ◌∷◌, ◌++◌, ◌≡◌, sym, ap, ◌∙◌, subst, arith, length,
  length-append, length-replicate, replicate,
}
use rpglot.Prelude.Int.{ℤ, IsI64}
use rpglot.Prelude.Bytes.{Bytes}
use rpglot.Prelude.Result.{Result, ok, map_err, >>=-eq-ok, map_err-eq-ok}
use rpglot.Storage.Interner.{StringInterner}
use rpglot.Storage.External.{Postcard, Zstd}
use rpglot.Storage.Chunk.Write.{
  ChunkError, external, IndexEntry, header_size, index_entry_size, header_bytes, index_bytes,
  overwrite_start, preamble, frames_loop, write_tested, write_chunk_inner,
}
use rpglot.Storage.Chunk.Layout.{Fits, AllFit, length-header_bytes, length-index_bytes}
use rpglot.Storage.Chunk.Stored.{
  Stored, AllStored, AllStored-append, AllStored-overwrite, frames_loop-Stored,
}
use rpglot.Storage.Chunk.Opened.{written_file}

module _ (zstd : Zstd) (dictionary : Bytes) (get : ℕ → Result ChunkError (Bytes × ℤ))
    (postcard : Postcard StringInterner) where
  -- The timestamps that the snapshots have are those of an `i64`.
  abbrev pub TimesFit : Type 0
  TimesFit = (i : ℕ) (raw : Bytes) (time : ℤ) → get i ≡ ok (raw, time) → IsI64 time

  fit-Stored :
      (file : Bytes) (lo i : ℕ) (e : IndexEntry)
      → TimesFit
      → length file < 2 ^ 64
      → Stored zstd dictionary get file lo i e
      → Fits e
  fit-Stored file lo i e times small s = record {
    offset_fits = omega (arith, s.within);
    compressed_len_fits = omega (arith, s.within);
    timestamp_fits = times i s.raw e.timestamp s.got;
    uncompressed_len_fits = omega (arith, s.raw_len);
  }

  pub fit-AllStored :
      (file : Bytes) (lo i : ℕ) (es : List IndexEntry)
      → TimesFit
      → length file < 2 ^ 64
      → AllStored zstd dictionary get file lo i es
      → AllFit es
  fit-AllStored file lo i [] times small s = tt
  fit-AllStored file lo i (e ∷ es) times small (s, rest) =
      (fit-Stored file lo i e times small s, fit-AllStored file lo (suc i) es times small rest)

  -- What a file that was written is made of.
  pub record Parts (count : ℕ) (interner : StringInterner) (file : Bytes) : Type 0 where
    pub es : List IndexEntry
    pub body : Bytes
    pub more : Bytes
    pub packed : Bytes
    pub raw_interner : Bytes
    pub count_eq : length es ≡ count
    pub few : count ≤ 65535
    pub grown : body ≡ preamble dictionary count ++ more
    pub serialized : postcard.to_allocvec interner ≡ ok raw_interner
    pub encoded : zstd.encode_all raw_interner ≡ ok packed
    pub file_eq : file ≡ written_file dictionary es body more packed
    pub stored : AllStored zstd dictionary get file (header_size + count * index_entry_size) 0 es

  tested :
      (count : ℕ) (interner : StringInterner) (file : Bytes)
      → write_chunk_inner zstd dictionary get postcard count interner ≡ ok file
      → (count ≤ 65535) × (write_tested zstd dictionary get postcard count interner ≡ ok file)
  unfolding write_chunk_inner
  tested count interner file h = ground arith

  write_parts :
      (count : ℕ) (interner : StringInterner) (file : Bytes)
      → write_tested zstd dictionary get postcard count interner ≡ ok file
      → (written : Bytes × List IndexEntry) × (raw_interner : Bytes) × (packed : Bytes)
        × (frames_loop zstd dictionary get count 0 (preamble dictionary count) ≡ ok written)
        × (postcard.to_allocvec interner ≡ ok raw_interner)
        × (zstd.encode_all raw_interner ≡ ok packed)
        × (overwrite_start
              (header_bytes count
                  (length written.0)
                  (length packed)
                  (header_size + count * index_entry_size)
                  (length dictionary)
                ++ index_bytes written.1)
              (written.0 ++ packed)
            ≡ file)
  unfolding write_tested
  write_parts count interner file h =
      let (written, loop, h₁) =
        >>=-eq-ok (frames_loop zstd dictionary get count 0 (preamble dictionary count)) _ h in
      let (raw, serialize, h₂) =
        >>=-eq-ok (map_err external (postcard.to_allocvec interner)) _ h₁ in
      let (packed, encode, h₃) = >>=-eq-ok (map_err external (zstd.encode_all raw)) _ h₂ in
      (
        written,
        raw,
        packed,
        loop,
        map_err-eq-ok external _ serialize,
        map_err-eq-ok external _ encode,
        cc h₃,
      )

  start_below :
      (count : ℕ) → header_size + count * index_entry_size ≤ length (preamble dictionary count)
  unfolding preamble
  start_below count = omega (
    arith,
    length-append {A = ℕ} (replicate header_size 0)
        (replicate (count * index_entry_size) 0 ++ dictionary),
    length-append {A = ℕ} (replicate (count * index_entry_size) 0) dictionary,
    length-replicate {A = ℕ} header_size 0,
    length-replicate {A = ℕ} (count * index_entry_size) 0,
  )

  as_written_file :
      (count : ℕ) (es : List IndexEntry) (body more packed : Bytes)
      → length es ≡ count
      → overwrite_start
          (header_bytes count
              (length body)
              (length packed)
              (header_size + count * index_entry_size)
              (length dictionary)
            ++ index_bytes es)
          (body ++ packed)
        ≡ written_file dictionary es body more packed
  as_written_file count es body more packed h =
      ap
        (λ c.
          overwrite_start
            (header_bytes c (length body) (length packed) (header_size + c * index_entry_size)
                (length dictionary)
              ++ index_bytes es)
            (body ++ packed))
        (sym h)

  start_length :
      (count : ℕ) (es : List IndexEntry) (body_len packed_len : ℕ)
      → length es ≡ count
      → length (
          header_bytes count body_len packed_len
            (header_size + count * index_entry_size)
            (length dictionary)
          ++ index_bytes es)
        ≡ header_size + count * index_entry_size
  start_length count es body_len packed_len h =
      let start = header_size + count * index_entry_size in
      let header = header_bytes count body_len packed_len start (length dictionary) in
      omega (
        arith,
        length-append header (index_bytes es),
        length-header_bytes count body_len packed_len start (length dictionary),
        length-index_bytes es,
      )

  pub write-Parts :
      (count : ℕ) (interner : StringInterner) (file : Bytes)
      → write_chunk_inner zstd dictionary get postcard count interner ≡ ok file
      → Parts count interner file
  write-Parts count interner file h =
      let (few, h') = tested count interner file h in
      let (written, raw, packed, loop, serialize, encode, e) = write_parts count interner file h' in
      let start = header_size + count * index_entry_size in
      let (more, grown, count_eq, stored) =
        frames_loop-Stored zstd dictionary get count 0 (preamble dictionary count) start loop
          (start_below count) in
      let start_bytes =
        header_bytes count (length written.0) (length packed) start (length dictionary)
        ++ index_bytes written.1 in
      record {
        es = written.1;
        body = written.0;
        more = more;
        packed = packed;
        raw_interner = raw;
        count_eq = count_eq;
        few = few;
        grown = grown;
        serialized = serialize;
        encoded = encode;
        file_eq = sym e ∙ as_written_file count written.1 written.0 more packed count_eq;
        stored =
            subst (λ b. AllStored zstd dictionary get b start 0 written.1) e
              (AllStored-overwrite zstd dictionary get (written.0 ++ packed) start 0 written.1
                start_bytes
                (start_length count written.1 (length written.0) (length packed) count_eq)
                (AllStored-append zstd dictionary get written.0 start 0 written.1 packed stored));
      }
