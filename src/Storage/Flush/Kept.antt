-- ===== src/Storage/Flush/Kept.antt =====
-- What a flush keeps of the log.
use rpglot.Prelude.{
  ℕ, suc, ◌^◌, ◌<◌, true, Option, some, List, [], ◌∷◌, ◌≡◌, sym, ap, ◌∙◌, subst, ◌↔◌, ◌/◌, arith,
  length, get_elem?, get_elem?-inside, length-map,
}
use rpglot.Prelude.Int.{IsI64}
use rpglot.Prelude.Bytes.{Bytes}
use rpglot.Prelude.Result.{Result, Result-cases, ok, err, to_option, map_err-eq-ok}
use rpglot.Model.Snapshot.{Snapshot}
use rpglot.Storage.External.{Postcard, Crc32, Zstd}
use rpglot.Storage.Hashes.{collect_snapshot_hashes, contains}
use rpglot.Storage.Hashes.Sets.{contains-insert_each}
use rpglot.Storage.Interner
use rpglot.Storage.Interner.{StringInterner, resolve}
use rpglot.Storage.Interner.Laws.{resolve-filter}
use rpglot.Storage.Wal.{WalEntry, WalFrameError, load_wal_snapshots}
use rpglot.Storage.Wal.Walk.{Found, Frames, Frames-bounds, Log-from, merged}
use rpglot.Storage.Wal.Access.{load-Frames}
use rpglot.Storage.Chunk.Write.{ChunkError, write_chunk_with_trained_dict}
use rpglot.Storage.Chunk.Read.{ChunkReader, open_chunk, read_snapshot, read_interner, timestamps}
use rpglot.Storage.Chunk.Loaded.{read-write, open_loaded}
use rpglot.Storage.Flush.{
  FlushError, no_valid_entries, chunk_failed, FirstPass, first_pass, at_least_one, train, reread,
  second_pass, chunk_of_wal,
}
use rpglot.Storage.Flush.Scan.{
  snapshots_of, pass_behind, first_pass_loop-Frames, offsets_behind, merged_behind, used_behind,
  reread-Frames,
}

module _ (crc32 : Crc32) (wal_postcard : Postcard WalEntry) (zstd : Zstd)
    (snapshot_postcard : Postcard Snapshot) (interner_postcard : Postcard StringInterner) where
  abbrev pass_of : ℕ → List Found → FirstPass
  pass_of count fs =
      pass_behind crc32 wal_postcard zstd snapshot_postcard interner_postcard
        (at_least_one (count / 20)) first_pass fs

  abbrev second : Bytes → FirstPass → Result FlushError Bytes
  second = second_pass crc32 wal_postcard zstd snapshot_postcard interner_postcard

  abbrev flushed : ℕ → Bytes → Option (Result FlushError Bytes)
  flushed = chunk_of_wal crc32 wal_postcard zstd snapshot_postcard interner_postcard

  abbrev again : Bytes → FirstPass → ℕ → Result ChunkError Snapshot
  again wal_data pass =
      reread crc32 wal_postcard zstd snapshot_postcard interner_postcard wal_data pass.frame_offsets

  abbrev written : Bytes → FirstPass → Result ChunkError Bytes
  written wal_data pass =
      write_chunk_with_trained_dict zstd snapshot_postcard interner_postcard
        (length pass.frame_offsets)
        (train crc32 wal_postcard zstd snapshot_postcard interner_postcard pass.dict_samples)
        (again wal_data pass) (Interner.filter pass.merged_interner (contains pass.used_hashes))

  chunk-Frames :
      (count : ℕ) (wal_data : Bytes) (fs : List Found) (end : ℕ) (e : WalFrameError)
      → Frames crc32 wal_postcard wal_data 0 fs end e
      → flushed count wal_data ≡ some (second wal_data (pass_of count fs))
  unfolding chunk_of_wal
  chunk-Frames count wal_data fs end e walk = ground (
    arith,
    first_pass_loop-Frames crc32 wal_postcard zstd snapshot_postcard interner_postcard
        (at_least_one (count / 20)) (suc (length wal_data)) wal_data 0 first_pass fs end e walk,
    Frames-bounds crc32 wal_postcard wal_data 0 fs end e walk (omega arith),
  )

  second-ok :
      (wal_data : Bytes) (pass : FirstPass) (file : Bytes)
      → second wal_data pass ≡ ok file
      → written wal_data pass ≡ ok file
  unfolding second_pass
  second-ok wal_data pass file h =
      ground (arith, map_err-eq-ok chunk_failed (written wal_data pass) {got = file})

  again-Frames :
      (count : ℕ) (wal_data : Bytes) (fs : List Found) (end : ℕ) (e : WalFrameError) (i : ℕ)
      → Frames crc32 wal_postcard wal_data 0 fs end e
      → to_option (again wal_data (pass_of count fs) i) ≡ get_elem? (snapshots_of fs) i
  again-Frames count wal_data fs end e i walk =
      ap
        (λ o.
          to_option
            (reread crc32 wal_postcard zstd snapshot_postcard interner_postcard wal_data o i))
        (offsets_behind crc32 wal_postcard zstd snapshot_postcard interner_postcard _ first_pass fs)
      ∙ reread-Frames crc32 wal_postcard zstd snapshot_postcard interner_postcard wal_data 0 fs end
          e i walk

  counted :
      (count : ℕ) (fs : List Found)
      → length (pass_of count fs).frame_offsets ≡ length (snapshots_of fs)
  counted count fs =
      ap length
        (offsets_behind crc32 wal_postcard zstd snapshot_postcard interner_postcard _ first_pass fs)
      ∙ length-map (λ (f : Found). f.start) fs
      ∙ sym (length-map (λ (f : Found). f.entry.snapshot) fs)

  kept-used :
      (count : ℕ) (fs : List Found) (i hash : ℕ) (s : Snapshot)
      → get_elem? (snapshots_of fs) i ≡ some s
      → contains (collect_snapshot_hashes s) hash ≡ true
      → resolve
          (Interner.filter
            (pass_of count fs).merged_interner
            (contains (pass_of count fs).used_hashes))
          hash
        ≡ resolve (merged crc32 wal_postcard Interner.new fs) hash
  kept-used count fs i hash s at used = ground (
    arith,
    resolve-filter (pass_of count fs).merged_interner (contains (pass_of count fs).used_hashes)
        hash,
    used_behind crc32 wal_postcard zstd snapshot_postcard interner_postcard
        (at_least_one (count / 20)) first_pass fs,
    merged_behind crc32 wal_postcard zstd snapshot_postcard interner_postcard
        (at_least_one (count / 20)) first_pass fs,
    contains-insert_each collect_snapshot_hashes (snapshots_of fs) i hash s at used,
  )

  -- What a chunk has of the snapshot at `i` of a log whose strings are in `interner`.
  abbrev pub Keeps : ChunkReader → StringInterner → StringInterner → ℕ → Snapshot → Type 0
  Keeps reader kept interner i s =
      (read_snapshot zstd snapshot_postcard reader i ≡ ok s)
      × (get_elem? (timestamps reader) i ≡ some s.timestamp)
      × ((hash : ℕ)
          → contains (collect_snapshot_hashes s) hash ≡ true
          → resolve kept hash ≡ resolve interner hash)

  Keeps-at :
      (count : ℕ) (wal_data file : Bytes) (fs : List Found) (end : ℕ) (e : WalFrameError)
      (reader : ChunkReader) (i : ℕ) (s : Snapshot)
      → Frames crc32 wal_postcard wal_data 0 fs end e
      → written wal_data (pass_of count fs) ≡ ok file
      → length file < 2 ^ 64
      → ((j : ℕ) (t : Snapshot) → get_elem? (snapshots_of fs) j ≡ some t → IsI64 t.timestamp)
      → ((j : ℕ) (t : Snapshot) (raw : Bytes)
          → get_elem? (snapshots_of fs) j ≡ some t
          → snapshot_postcard.to_allocvec t ≡ ok raw
          → length raw < 2 ^ 32)
      → open_chunk file ≡ ok reader
      → get_elem? (snapshots_of fs) i ≡ some s
      → Keeps reader
          (Interner.filter
            (pass_of count fs).merged_interner
            (contains (pass_of count fs).used_hashes))
          (merged crc32 wal_postcard Interner.new fs)
          i
          s
  Keeps-at count wal_data file fs end e reader i s walk wrote small times raws opened at =
      let pass = pass_of count fs in
      let loads : (j : ℕ) (t : Snapshot)
          → again wal_data pass j ≡ ok t
          → get_elem? (snapshots_of fs) j ≡ some t =
        λ j t h. sym (again-Frames count wal_data fs end e j walk) ∙ ap to_option h in
      let (t, load, read, time) =
        read-write zstd snapshot_postcard interner_postcard (length pass.frame_offsets) i _
          (again wal_data pass) _ file reader wrote small (λ j t h. times j t (loads j t h))
          (λ j t raw h. raws j t raw (loads j t h)) opened
          (omega (arith, counted count fs, get_elem?-inside (snapshots_of fs) i s at)) in
      let same : t ≡ s = cc (loads i t load) in
      (rw same at read, rw same at time, λ hash used. kept-used count fs i hash s at used)

  -- A flush that succeeds puts the whole log into the chunk: the file opens, with as many snapshots as
  -- load_wal_snapshots has from the log; the reader gives each of them at its place, with its timestamp;
  -- and each string that one of them uses resolves as in the interner of the log. The file is below
  -- 2 ^ 64 bytes, the timestamps of the snapshots are `i64`s, and the serialized bytes of each are fewer
  -- than 2 ^ 32.
  pub flush-Keeps :
      (count : ℕ) (wal_data file : Bytes) (snapshots : List Snapshot) (interner : StringInterner)
      → load_wal_snapshots crc32 wal_postcard wal_data ≡ some (snapshots, interner)
      → chunk_of_wal crc32 wal_postcard zstd snapshot_postcard interner_postcard count wal_data
        ≡ some (ok file)
      → length file < 2 ^ 64
      → ((j : ℕ) (t : Snapshot) → get_elem? snapshots j ≡ some t → IsI64 t.timestamp)
      → ((j : ℕ) (t : Snapshot) (raw : Bytes)
          → get_elem? snapshots j ≡ some t
          → snapshot_postcard.to_allocvec t ≡ ok raw
          → length raw < 2 ^ 32)
      → (reader : ChunkReader) × (kept : StringInterner) × (open_chunk file ≡ ok reader)
        × (reader.snapshot_count ≡ length snapshots)
        × (read_interner zstd interner_postcard reader ≡ ok kept)
        × ((i : ℕ) (s : Snapshot) → get_elem? snapshots i ≡ some s → Keeps reader kept interner i s)
  flush-Keeps count wal_data file snapshots interner loaded flush small times raws =
      let (fs, end, e, walk) =
        Log-from crc32 wal_postcard (suc (length wal_data)) wal_data 0 (omega arith) in
      let known = load-Frames crc32 wal_postcard wal_data fs end e walk in
      let same : snapshots ≡ snapshots_of fs = ground (arith, known) in
      let strings : interner ≡ merged crc32 wal_postcard Interner.new fs = ground (arith, known) in
      let pass = pass_of count fs in
      let ended = chunk-Frames count wal_data fs end e walk in
      let wrote = second-ok wal_data pass file (ground (arith, ended)) in
      let times_fs : (j : ℕ) (t : Snapshot)
          → get_elem? (snapshots_of fs) j ≡ some t
          → IsI64 t.timestamp =
        λ j t h. times j t (rw same h) in
      let (reader, opened, count_eq, read) =
        open_loaded zstd snapshot_postcard interner_postcard (length pass.frame_offsets) _
          (again wal_data pass) _ file wrote small
          (λ j t h.
            times_fs j t (sym (again-Frames count wal_data fs end e j walk) ∙ ap to_option h)) in
      (
        reader,
        _,
        opened,
        count_eq ∙ counted count fs ∙ ap length (sym same),
        read,
        λ i s at.
            subst
              (λ n.
                Keeps reader (Interner.filter pass.merged_interner (contains pass.used_hashes)) n i
                  s)
              (sym strings)
              (Keeps-at count wal_data file fs end e reader i s walk wrote small times_fs
                (λ j t raw h. raws j t raw (rw same h)) opened
                (ap (λ l. get_elem? l i) (sym same) ∙ at)),
      )

  no_entries :
      (count : ℕ) (wal_data : Bytes) (fs : List Found)
      → (second wal_data (pass_of count fs) ≡ err no_valid_entries) ↔ (snapshots_of fs ≡ [])
  unfolding second_pass
  no_entries count wal_data [] = ground arith
  no_entries count wal_data (f ∷ fs) =
      ground
        (arith, counted count (f ∷ fs), Result-cases (written wal_data (pass_of count (f ∷ fs))))

  -- A flush ends on every log, and it finds no valid entries exactly where the log loads no snapshots.
  pub flush_ends :
      (count : ℕ) (wal_data : Bytes)
      → (snapshots : List Snapshot) × (interner : StringInterner) × (result : Result FlushError
          Bytes)
        × (load_wal_snapshots crc32 wal_postcard wal_data ≡ some (snapshots, interner))
        × (chunk_of_wal crc32 wal_postcard zstd snapshot_postcard interner_postcard count wal_data
            ≡ some result)
        × ((result ≡ err no_valid_entries) ↔ (snapshots ≡ []))
  flush_ends count wal_data =
      let (fs, end, e, walk) =
        Log-from crc32 wal_postcard (suc (length wal_data)) wal_data 0 (omega arith) in
      (
        snapshots_of fs,
        merged crc32 wal_postcard Interner.new fs,
        second wal_data (pass_of count fs),
        load-Frames crc32 wal_postcard wal_data fs end e walk,
        chunk-Frames count wal_data fs end e walk,
        no_entries count wal_data fs,
      )
