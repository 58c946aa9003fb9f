-- ===== src/Storage/Wal/Recovery.antt =====
-- recover_from_wal: what survives a crash, and what does not.
use rpglot.Prelude.{
  ℕ, suc, ◌≤◌, ◌<◌, false, some, List, [], ◌∷◌, ◌++◌, ◌≡◌, ◌≢◌, refl, ap, ◌⊎◌, inl, inr, ◌∙◌, arith,
  length, take, length-append, length-take, take_left, append-nil, map, length-map,
}
use native.Mathlib.Nat.{zero-add}
use rpglot.Prelude.Bytes.{Bytes}
use rpglot.Prelude.Result.{err}
use rpglot.Storage.External.{Postcard, Crc32}
use rpglot.Storage.Interner
use rpglot.Storage.Interner.{StringInterner}
use rpglot.Model.Snapshot.{Snapshot}
use rpglot.Storage.Wal.{
  WalEntry, WalFrameError, truncated_header, max_wal_entry_size, framed, WalFaults, truncate_wal,
  recover_from_wal, read_wal_frame_validated, load_wal_snapshots,
}
use rpglot.Storage.Wal.Frame.{
  read_torn, read_cut, read_past, read_bounds, length-framed, final_before, IsFinal,
}
use rpglot.Storage.Wal.Walk.{Found, Frames, Frames-bounds, Log-from, recover_loop-Frames, merged}
use rpglot.Storage.Wal.Access.{load-Frames}
use rpglot.Storage.Wal.Written.{Written, Written-Frames}

abbrev pub no_faults : WalFaults
no_faults = record { read_fails = false; set_len_fails = false }

module _ (crc32 : Crc32) (postcard : Postcard WalEntry) where
  -- Recovery is the walk: it counts its frames and cuts the file behind the last.
  pub recover-Frames :
      (faults : WalFaults) (file : Bytes) (fs : List Found) (end : ℕ) (e : WalFrameError)
      → Frames crc32 postcard file 0 fs end e
      → faults.read_fails ≡ false
      → recover_from_wal crc32 postcard faults file ≡ some (truncate_wal faults file end, length fs)
  unfolding recover_from_wal
  recover-Frames faults [] fs end e walk readable =
      ground (arith, Frames-bounds crc32 postcard [] 0 fs end e walk (omega arith))
  recover-Frames faults (b ∷ bytes) fs end e walk readable = ground (
    arith,
    Frames-bounds crc32 postcard (b ∷ bytes) 0 fs end e walk (omega arith),
    recover_loop-Frames crc32 postcard (suc (length (b ∷ bytes))) (b ∷ bytes) 0 0 fs end e walk,
  )

  Written-pos :
      (es : List WalEntry) (log : Bytes) → es ≢ [] → Written crc32 postcard es log → 0 < length log
  Written-pos [] log h w = absurd (h refl)
  Written-pos (e ∷ es) log h (encoded, rest, p, split, w) = omega (
    arith,
    ap length split,
    length-append (framed crc32 postcard encoded) rest,
    length-framed crc32 postcard encoded,
  )

  cut_behind :
      (log rest : Bytes) → 0 < length log → truncate_wal no_faults (log ++ rest) (length log) ≡ log
  unfolding truncate_wal
  cut_behind log [] h = ground (arith, append-nil log)
  cut_behind log (b ∷ rest) h =
      ground (arith, length-append log (b ∷ rest), take_left (length log) log (b ∷ rest) refl)

  -- A log of one entry or more, with anything behind it that does not read as a frame, is recovered
  -- where the file can be read and cut: it is cut to the log, and the count is the number of entries.
  pub recover_log :
      (es : List WalEntry) (log rest : Bytes) (x : WalFrameError)
      → es ≢ []
      → Written crc32 postcard es log
      → read_wal_frame_validated crc32 postcard rest 0 ≡ err x
      → recover_from_wal crc32 postcard no_faults (log ++ rest) ≡ some (log, length es)
  recover_log es log rest x h w stop =
      let (fs, entries, walk) = Written-Frames crc32 postcard [] es log rest x w stop in
      ground (
        arith,
        recover-Frames no_faults (log ++ rest) fs (length log) x (rw zero-add at walk) refl,
        cut_behind log rest (Written-pos es log h w),
        length-map (λ (f : Found). f.entry) fs,
        ap length entries,
      )

  -- A crash while a further entry was written to a log of one entry or more, its payload within the
  -- size limit, loses that entry and no other, where the file can be read and cut.
  pub recover_torn :
      (es : List WalEntry) (log encoded : Bytes) (k : ℕ)
      → es ≢ []
      → Written crc32 postcard es log
      → length encoded ≤ max_wal_entry_size
      → k < length (framed crc32 postcard encoded)
      → recover_from_wal crc32 postcard no_faults (log ++ take k (framed crc32 postcard encoded))
        ≡ some (log, length es)
  recover_torn es log encoded k h w fits short =
      recover_log es log _ _ h w (read_torn crc32 postcard encoded k short fits)

  -- Frames up to `end` stand in the file that is cut there too.
  Frames-cut :
      (file : Bytes) (position : ℕ) (fs : List Found) (end : ℕ) (e : WalFrameError)
      → Frames crc32 postcard file position fs end e
      → position ≤ length file
      → Frames crc32 postcard (take end file) position fs end truncated_header
  Frames-cut file position [] end e (here, stop) h = (
    here,
    read_past crc32 postcard (take end file) position (omega (arith, length-take end file)),
  )
  Frames-cut file position (f ∷ fs) end e (start, found, rest) h =
      let inside = read_bounds crc32 postcard file position found in
      let bounds = Frames-bounds crc32 postcard file f.next fs end e rest (inside.1) in
      (
        start,
        read_cut crc32 postcard file position end found (omega arith) (bounds.1),
        Frames-cut file f.next fs end e rest (inside.1),
      )

  truncate_wal-cut :
      (file : Bytes) (end : ℕ)
      → end ≤ length file
      → truncate_wal no_faults (take end file) end ≡ take end file
  unfolding truncate_wal
  truncate_wal-cut file end h = ground (arith, length-take end file h)

  truncate_wal_cases :
      (file : Bytes) (end : ℕ)
      → (truncate_wal no_faults file end ≡ file) ⊎ (truncate_wal no_faults file end ≡ take end file)
  unfolding truncate_wal
  truncate_wal_cases file end = ground arith

  recover_again :
      (file : Bytes) (fs : List Found) (end : ℕ) (e : WalFrameError)
      → Frames crc32 postcard file 0 fs end e
      → recover_from_wal crc32 postcard no_faults (truncate_wal no_faults file end)
        ≡ some (truncate_wal no_faults file end, length fs)
  recover_again file fs end e walk =
      let bounds = Frames-bounds crc32 postcard file 0 fs end e walk (omega arith) in
      elim (truncate_wal_cases file end) [
        | inl same ↦ rw same (recover-Frames no_faults file fs end e walk refl ∙ rw same)
        | inr cut ↦ rw cut (
            recover-Frames no_faults (take end file) fs end truncated_header
              (Frames-cut file 0 fs end e walk (omega arith)) refl
            ∙ rw (truncate_wal-cut file end (bounds.1)))
      ]

  load-truncated :
      (file : Bytes) (fs : List Found) (end : ℕ) (e : WalFrameError)
      → Frames crc32 postcard file 0 fs end e
      → load_wal_snapshots crc32 postcard (truncate_wal no_faults file end)
        ≡ some (map (λ f. f.entry.snapshot) fs, merged crc32 postcard Interner.new fs)
  load-truncated file fs end e walk = elim (truncate_wal_cases file end) [
    | inl same ↦ rw same (load-Frames crc32 postcard file fs end e walk)
    | inr cut ↦ rw cut (
        load-Frames crc32 postcard (take end file) fs end truncated_header
          (Frames-cut file 0 fs end e walk (omega arith)))
  ]

  -- Recovery of a recovered file changes nothing and counts the same, where the file can be read and
  -- cut.
  pub recover_idempotent :
      (file after : Bytes) (count : ℕ)
      → recover_from_wal crc32 postcard no_faults file ≡ some (after, count)
      → recover_from_wal crc32 postcard no_faults after ≡ some (after, count)
  recover_idempotent file after count h =
      let (fs, end, e, walk) = Log-from crc32 postcard (suc (length file)) file 0 (omega arith) in
      let known = recover-Frames no_faults file fs end e walk refl in
      ground (arith, recover_again file fs end e walk, known)

  -- A file that begins with damage that no further byte can mend (a size above the limit, a wrong
  -- checksum, a payload that does not parse) is not cut by recovery, and its count is 0, where the file
  -- can be read and cut. Whatever is written behind, no snapshot of the file is loaded from then on.
  pub damaged_head :
      (file more : Bytes) (x : WalFrameError)
      → read_wal_frame_validated crc32 postcard file 0 ≡ err x
      → IsFinal crc32 postcard x
      → (recover_from_wal crc32 postcard no_faults file ≡ some (file, 0))
        × (load_wal_snapshots crc32 postcard (file ++ more) ≡ some ([], Interner.new))
  unfolding truncate_wal
  damaged_head file more x bad final = (
    recover-Frames no_faults file [] 0 x (refl, bad) refl ∙ ground arith,
    load-Frames crc32 postcard (file ++ more) [] 0 x
        (refl, final_before crc32 postcard file more 0 x bad final),
  )

  -- The count that recovery returns is the number of snapshots that the file loads, and the file that
  -- it leaves loads the same snapshots and strings, where the file can be read and cut.
  pub recover_loads :
      (file after : Bytes) (count : ℕ)
      → recover_from_wal crc32 postcard no_faults file ≡ some (after, count)
      → (snapshots : List Snapshot) × (interner : StringInterner) × (load_wal_snapshots crc32
            postcard file
          ≡ some (snapshots, interner))
        × (load_wal_snapshots crc32 postcard after ≡ some (snapshots, interner))
        × (length snapshots ≡ count)
  recover_loads file after count h =
      let (fs, end, e, walk) = Log-from crc32 postcard (suc (length file)) file 0 (omega arith) in
      let known = recover-Frames no_faults file fs end e walk refl in
      (
        map (λ f. f.entry.snapshot) fs,
        merged crc32 postcard Interner.new fs,
        load-Frames crc32 postcard file fs end e walk,
        ap (load_wal_snapshots crc32 postcard) (ground (arith, known))
            ∙ load-truncated file fs end e walk,
        length-map (λ (f : Found). f.entry.snapshot) fs ∙ ground (arith, known),
      )
