-- ===== src/Storage/Wal/Access.antt =====
-- The three readers of the log agree: all snapshots, the metadata, and one snapshot by its range.
use mathlib.Core.List.{map-map}
use rpglot.Prelude.{
  ℕ, suc, ◌+◌, ◌-◌, ◌≤◌, Option, some, List, [], ◌∷◌, ◌≡◌, refl, sym, ◌∙◌, arith, length, take,
  drop, length-take, length-drop, take-append-drop, map,
}
use rpglot.Prelude.Int.{ℤ}
use rpglot.Prelude.Bytes.{Bytes, slice}
use rpglot.Prelude.Result.{ok, err}
use rpglot.Storage.External.{Postcard, Crc32}
use rpglot.Storage.Interner
use rpglot.Storage.Interner.{StringInterner}
use rpglot.Model.Snapshot.{Snapshot}
use rpglot.Storage.Wal.{
  WalEntry, WalFrameError, FrameResult, read_wal_frame, read_wal_frame_validated,
  load_wal_snapshots, scan_wal_metadata, load_wal_snapshot_at,
}
use rpglot.Storage.Wal.Frame.{read_cut, read_bounds, read_behind, shift}
use rpglot.Storage.Wal.Walk.{
  Found, Frames, Frames-bounds, load_loop-Frames, scan_loop-Frames, merged, metadata, Log-from,
}

module _ (crc32 : Crc32) (postcard : Postcard WalEntry) where
  pub load-Frames :
      (file : Bytes) (fs : List Found) (end : ℕ) (e : WalFrameError)
      → Frames crc32 postcard file 0 fs end e
      → load_wal_snapshots crc32 postcard file
        ≡ some (map (λ f. f.entry.snapshot) fs, merged crc32 postcard Interner.new fs)
  unfolding load_wal_snapshots
  load-Frames [] [] end e walk = refl
  load-Frames [] (f ∷ fs) end e walk =
      absurd (omega (arith, Frames-bounds crc32 postcard [] 0 (f ∷ fs) end e walk (omega arith)))
  load-Frames (b ∷ bytes) fs end e walk =
      load_loop-Frames crc32 postcard (suc (length (b ∷ bytes))) (b ∷ bytes) 0 [] Interner.new fs
        end e walk
        (omega (arith, Frames-bounds crc32 postcard (b ∷ bytes) 0 fs end e walk (omega arith)))

  pub scan-Frames :
      (file : Bytes) (fs : List Found) (end : ℕ) (e : WalFrameError)
      → Frames crc32 postcard file 0 fs end e
      → scan_wal_metadata crc32 postcard file ≡ some (map (metadata crc32 postcard) fs)
  unfolding scan_wal_metadata
  scan-Frames [] [] end e walk = refl
  scan-Frames [] (f ∷ fs) end e walk =
      absurd (omega (arith, Frames-bounds crc32 postcard [] 0 (f ∷ fs) end e walk (omega arith)))
  scan-Frames (b ∷ bytes) fs end e walk =
      scan_loop-Frames crc32 postcard (suc (length (b ∷ bytes))) (b ∷ bytes) 0 [] fs end e walk
        (omega (arith, Frames-bounds crc32 postcard (b ∷ bytes) 0 fs end e walk (omega arith)))

  unshift :
      (n : ℕ) (r : FrameResult) (e : WalEntry) (next : ℕ)
      → shift n r ≡ ok (e, next)
      → r ≡ ok (e, next - n)
  unshift n (ok (d, k)) e next h = ground arith
  unshift n (err x) e next h = cc

  read-drop :
      (file : Bytes) (position : ℕ) {e : WalEntry} {next : ℕ}
      → position ≤ length file
      → read_wal_frame_validated crc32 postcard file position ≡ ok (e, next)
      → read_wal_frame_validated crc32 postcard (drop position file) 0 ≡ ok (e, next - position)
  read-drop file position {e} {next} inside found =
      let here : length (take position file) + 0 ≡ position =
        omega (arith, length-take position file inside) in
      let moved = read_behind crc32 postcard (take position file) (drop position file) 0 in
      unshift (length (take position file)) _ e next
        (sym moved ∙ rw (take-append-drop position file, here) found)
      ∙ rw (length-take position file inside)

  -- A frame's own bytes read as the frame does.
  read_range :
      (file : Bytes) (position : ℕ) {e : WalEntry} {next : ℕ}
      → read_wal_frame_validated crc32 postcard file position ≡ ok (e, next)
      → read_wal_frame_validated crc32 postcard (slice file position (next - position)) 0
        ≡ ok (e, next - position)
  unfolding slice
  read_range file position {e} {next} found =
      let bounds = read_bounds crc32 postcard file position found in
      read_cut crc32 postcard (drop position file) 0 (next - position)
        (read-drop file position (omega arith) found) (omega arith)
        (omega (arith, length-drop position file))

  load_at_range :
      (file : Bytes) (position : ℕ) {e : WalEntry} {next : ℕ}
      → read_wal_frame_validated crc32 postcard file position ≡ ok (e, next)
      → load_wal_snapshot_at crc32 postcard file position (next - position) ≡ some e.snapshot
  unfolding load_wal_snapshot_at read_wal_frame
  load_at_range file position found =
      ground (arith, read_range file position found, read_bounds crc32 postcard file position found)

  abbrev pub load_each : Bytes → List (ℕ × ℕ × ℤ) → List (Option Snapshot)
  load_each file = map (λ m. load_wal_snapshot_at crc32 postcard file m.0 m.1)

  load_each-Frames :
      (file : Bytes) (position : ℕ) (fs : List Found) (end : ℕ) (e : WalFrameError)
      → Frames crc32 postcard file position fs end e
      → load_each file (map (metadata crc32 postcard) fs) ≡ map (λ f. some f.entry.snapshot) fs
  load_each-Frames file position [] end e walk = refl
  load_each-Frames file position (f ∷ fs) end e (start, found, rest) =
      ground (arith, load_at_range file position found, load_each-Frames file f.next fs end e rest)

  -- Every reader of the log ends, whatever the file holds, and they agree: each range that
  -- scan_wal_metadata reports loads, by load_wal_snapshot_at, the snapshot that load_wal_snapshots has
  -- in that place, and reports its timestamp.
  pub readers_agree :
      (file : Bytes)
      → (snapshots : List Snapshot) × (interner : StringInterner) × (ranges : List (ℕ × ℕ × ℤ))
        × (load_wal_snapshots crc32 postcard file ≡ some (snapshots, interner))
        × (scan_wal_metadata crc32 postcard file ≡ some ranges)
        × (load_each file ranges ≡ map some snapshots)
        × (map (λ m. m.2) ranges ≡ map (λ s. s.timestamp) snapshots)
  readers_agree file =
      let (fs, end, e, walk) = Log-from crc32 postcard (suc (length file)) file 0 (omega arith) in
      (
        map (λ f. f.entry.snapshot) fs,
        merged crc32 postcard Interner.new fs,
        map (metadata crc32 postcard) fs,
        load-Frames file fs end e walk,
        scan-Frames file fs end e walk,
        load_each-Frames file 0 fs end e walk
            ∙ sym (map-map some (λ (f : Found). f.entry.snapshot) fs),
        map-map (λ (m : ℕ × ℕ × ℤ). m.2) (metadata crc32 postcard) fs
            ∙ sym (map-map (λ (s : Snapshot). s.timestamp) (λ (f : Found). f.entry.snapshot) fs),
      )
