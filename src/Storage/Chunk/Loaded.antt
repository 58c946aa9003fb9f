-- ===== src/Storage/Chunk/Loaded.antt =====
-- write_chunk_with_trained_dict: a chunk of the snapshots that a closure loads.
use rpglot.Prelude.{ℕ, ◌^◌, ◌<◌, ◌≡◌, sym, ap, ◌∙◌, subst, length, get_elem?, some}
use rpglot.Prelude.Int.{ℤ, IsI64}
use rpglot.Prelude.Bytes.{Bytes}
use rpglot.Prelude.Result.{Result, ok, map_err, >>=-eq-ok, map_err-eq-ok}
use rpglot.Model.Snapshot.{Snapshot}
use rpglot.Storage.Interner.{StringInterner}
use rpglot.Storage.External.{Postcard, Zstd}
use rpglot.Storage.Chunk.Write.{ChunkError, external, raw_of_loaded, write_chunk_with_trained_dict}
use rpglot.Storage.Chunk.Read.{ChunkReader, open_chunk, timestamps, read_snapshot, read_interner}
use rpglot.Storage.Chunk.RoundTrip.{read-write_raw, open-write}

loaded :
    (zstd : Zstd) (snapshots : Postcard Snapshot) (interners : Postcard StringInterner)
    (load_snapshot : ℕ → Result ChunkError Snapshot) (j : ℕ) (raw : Bytes) (time : ℤ)
    → raw_of_loaded zstd snapshots interners load_snapshot j ≡ ok (raw, time)
    → (s : Snapshot) × (load_snapshot j ≡ ok s)
      × (snapshots.to_allocvec s ≡ ok raw)
      × (s.timestamp ≡ time)
unfolding raw_of_loaded
loaded zstd snapshots interners load_snapshot j raw time h =
    let (s, load, h₁) = >>=-eq-ok (load_snapshot j) _ h in
    let (bytes, serialize, h₂) = >>=-eq-ok (map_err external (snapshots.to_allocvec s)) _ h₁ in
    (s, load, map_err-eq-ok external _ serialize ∙ cc h₂, cc h₂)

loaded_times :
    (zstd : Zstd) (snapshots : Postcard Snapshot) (interners : Postcard StringInterner)
    (load_snapshot : ℕ → Result ChunkError Snapshot)
    → ((j : ℕ) (s : Snapshot) → load_snapshot j ≡ ok s → IsI64 s.timestamp)
    → (j : ℕ) (raw : Bytes) (time : ℤ)
    → raw_of_loaded zstd snapshots interners load_snapshot j ≡ ok (raw, time)
    → IsI64 time
loaded_times zstd snapshots interners load_snapshot times j raw time got =
    let (s, load, serialize, e) = loaded zstd snapshots interners load_snapshot j raw time got in
    subst IsI64 e (times j s load)

-- Snapshot `i` of a chunk that write_chunk_with_trained_dict wrote reads back as what load_snapshot
-- gave for `i`, and the reader has its timestamp. The file is below 2 ^ 64 bytes, a snapshot that
-- load_snapshot gives has an `i64` for its timestamp, and its serialized bytes are fewer than 2 ^ 32.
pub read-write :
    (zstd : Zstd) (snapshots : Postcard Snapshot) (interners : Postcard StringInterner)
    (count i : ℕ) (dictionary : Bytes) (load_snapshot : ℕ → Result ChunkError Snapshot)
    (interner : StringInterner) (file : Bytes) (reader : ChunkReader)
    → write_chunk_with_trained_dict zstd snapshots interners count dictionary load_snapshot interner
      ≡ ok file
    → length file < 2 ^ 64
    → ((j : ℕ) (s : Snapshot) → load_snapshot j ≡ ok s → IsI64 s.timestamp)
    → ((j : ℕ) (s : Snapshot) (raw : Bytes)
        → load_snapshot j ≡ ok s
        → snapshots.to_allocvec s ≡ ok raw
        → length raw < 2 ^ 32)
    → open_chunk file ≡ ok reader
    → i < count
    → (s : Snapshot) × (load_snapshot i ≡ ok s)
      × (read_snapshot zstd snapshots reader i ≡ ok s)
      × (get_elem? (timestamps reader) i ≡ some s.timestamp)
unfolding write_chunk_with_trained_dict
read-write zstd snapshots interners count i dictionary load_snapshot interner file reader h small
      times raws opened below =
    let get = raw_of_loaded zstd snapshots interners load_snapshot in
    let raws_fit : (j : ℕ) (raw : Bytes) (time : ℤ) → get j ≡ ok (raw, time) → length raw < 2 ^ 32 =
      λ j raw time got.
        let (s, load, serialize, e) =
          loaded zstd snapshots interners load_snapshot j raw time got in
        raws j s raw load serialize in
    let (raw, time, got, at, read) =
      read-write_raw zstd dictionary get interners snapshots count i interner file reader h small
        (loaded_times zstd snapshots interners load_snapshot times) raws_fit opened below in
    let (s, load, serialize, e) = loaded zstd snapshots interners load_snapshot i raw time got in
    (s, load, read ∙ rw (snapshots.from_bytes-to_allocvec s raw serialize), at ∙ ap some (sym e))

-- A chunk that write_chunk_with_trained_dict wrote opens: the reader has the count that was given, and
-- read_interner reads the interner that was given.
pub open_loaded :
    (zstd : Zstd) (snapshots : Postcard Snapshot) (interners : Postcard StringInterner) (count : ℕ)
    (dictionary : Bytes) (load_snapshot : ℕ → Result ChunkError Snapshot)
    (interner : StringInterner) (file : Bytes)
    → write_chunk_with_trained_dict zstd snapshots interners count dictionary load_snapshot interner
      ≡ ok file
    → length file < 2 ^ 64
    → ((j : ℕ) (s : Snapshot) → load_snapshot j ≡ ok s → IsI64 s.timestamp)
    → (reader : ChunkReader) × (open_chunk file ≡ ok reader)
      × (reader.snapshot_count ≡ count)
      × (read_interner zstd interners reader ≡ ok interner)
unfolding write_chunk_with_trained_dict
open_loaded zstd snapshots interners count dictionary load_snapshot interner file h small times =
    let get = raw_of_loaded zstd snapshots interners load_snapshot in
    let (reader, opened, counted, _, read, _) =
      open-write zstd dictionary get interners count interner file h small
        (loaded_times zstd snapshots interners load_snapshot times) in
    (reader, opened, counted, read)
