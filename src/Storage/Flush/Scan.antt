-- ===== src/Storage/Flush/Scan.antt =====
-- The two passes of a flush over the frames of a log.
use rpglot.Prelude.{
  ℕ, zero, suc, ◌<◌, some, List, [], ◌∷◌, ◌++◌, ◌≡◌, refl, arith, length, get_elem?, map,
  append-nil, append_assoc, ◌∙◌,
}
use rpglot.Prelude.Bytes.{Bytes}
use rpglot.Prelude.Result.{to_option}
use rpglot.Model.Snapshot.{Snapshot}
use rpglot.Storage.External.{Postcard, Crc32, Zstd}
use rpglot.Storage.Hashes.{collect_snapshot_hashes, insert_each}
use rpglot.Storage.Interner.{StringInterner}
use rpglot.Storage.Wal.{WalEntry, WalFrameError, read_wal_frame}
use rpglot.Storage.Wal.Walk.{Found, Frames, merged}
use rpglot.Storage.Flush.{FirstPass, first_pass_loop, scan_entry, reread}

abbrev pub snapshots_of : List Found → List Snapshot
snapshots_of = map (λ (f : Found). f.entry.snapshot)

module _ (crc32 : Crc32) (wal_postcard : Postcard WalEntry) (zstd : Zstd)
    (snapshot_postcard : Postcard Snapshot) (interner_postcard : Postcard StringInterner) where
  abbrev with_frame : ℕ → FirstPass → Found → FirstPass
  with_frame interval pass f =
      scan_entry crc32 wal_postcard zstd snapshot_postcard interner_postcard interval pass f.start
        f.entry

  -- What the first pass has behind these frames.
  abbrev pub pass_behind : ℕ → FirstPass → List Found → FirstPass
  pass_behind interval pass [] = pass
  pass_behind interval pass (f ∷ fs) = pass_behind interval (with_frame interval pass f) fs

  pub first_pass_loop-Frames :
      (interval fuel : ℕ) (bytes : Bytes) (position : ℕ) (pass : FirstPass) (fs : List Found)
      (end : ℕ) (e : WalFrameError)
      → Frames crc32 wal_postcard bytes position fs end e
      → length fs < fuel
      → first_pass_loop crc32 wal_postcard zstd snapshot_postcard interner_postcard interval fuel
          bytes position pass
        ≡ some (pass_behind interval pass fs)
  unfolding first_pass_loop read_wal_frame
  first_pass_loop-Frames interval zero bytes position pass fs end e walk h = absurd (omega arith)
  first_pass_loop-Frames interval (suc fuel) bytes position pass [] end e (_, stop) h = ground arith
  first_pass_loop-Frames interval (suc fuel) bytes position pass (f ∷ fs) end e (start, found, rest)
        h =
      ground (
        arith,
        first_pass_loop-Frames interval fuel bytes f.next (with_frame interval pass f) fs end e
            rest,
      )

  pub offsets_behind :
      (interval : ℕ) (pass : FirstPass) (fs : List Found)
      → (pass_behind interval pass fs).frame_offsets ≡ pass.frame_offsets ++ map (λ f. f.start) fs
  unfolding scan_entry
  offsets_behind interval pass [] = ground (arith, append-nil pass.frame_offsets)
  offsets_behind interval pass (f ∷ fs) =
      offsets_behind interval (with_frame interval pass f) fs
      ∙ append_assoc pass.frame_offsets (f.start ∷ []) (map (λ (g : Found). g.start) fs)

  pub merged_behind :
      (interval : ℕ) (pass : FirstPass) (fs : List Found)
      → (pass_behind interval pass fs).merged_interner
        ≡ merged crc32 wal_postcard pass.merged_interner fs
  unfolding scan_entry
  merged_behind interval pass [] = refl
  merged_behind interval pass (f ∷ fs) = merged_behind interval (with_frame interval pass f) fs

  pub used_behind :
      (interval : ℕ) (pass : FirstPass) (fs : List Found)
      → (pass_behind interval pass fs).used_hashes
        ≡ pass.used_hashes ++ insert_each collect_snapshot_hashes (snapshots_of fs)
  unfolding scan_entry insert_each
  used_behind interval pass [] = ground (arith, append-nil pass.used_hashes)
  used_behind interval pass (f ∷ fs) =
      used_behind interval (with_frame interval pass f) fs
      ∙ append_assoc pass.used_hashes (collect_snapshot_hashes f.entry.snapshot)
          (insert_each collect_snapshot_hashes (snapshots_of fs))

  -- A frame that is read again from its offset has the snapshot that it had.
  pub reread-Frames :
      (bytes : Bytes) (position : ℕ) (fs : List Found) (end : ℕ) (e : WalFrameError) (i : ℕ)
      → Frames crc32 wal_postcard bytes position fs end e
      → to_option (
          reread crc32 wal_postcard zstd snapshot_postcard interner_postcard bytes
            (map (λ f. f.start) fs)
            i)
        ≡ get_elem? (snapshots_of fs) i
  unfolding reread read_wal_frame
  reread-Frames bytes position [] end e i walk = refl
  reread-Frames bytes position (f ∷ fs) end e zero (start, found, rest) = ground arith
  reread-Frames bytes position (f ∷ fs) end e (suc i) (start, found, rest) =
      reread-Frames bytes f.next fs end e i rest
