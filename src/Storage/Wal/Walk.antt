-- ===== src/Storage/Wal/Walk.antt =====
-- The frames that can be read one behind another, and that each loop of the log visits exactly those,
-- whatever the file holds. Fuel above the number of bytes is enough.
use rpglot.Prelude.{
  ℕ, zero, suc, ◌+◌, ◌-◌, ◌*◌, ◌≤◌, ◌<◌, some, List, [], ◌∷◌, ◌++◌, ◌≡◌, refl, inl, inr, arith,
  ◌==◌, length, append_assoc, append-nil, map,
}
use rpglot.Prelude.Int.{ℤ}
use rpglot.Prelude.Bytes.{Bytes}
use rpglot.Prelude.Result.{ok, err, Result-cases}
use rpglot.Model.Snapshot.{Snapshot}
use rpglot.Storage.External.{Postcard, Crc32}
use rpglot.Storage.Interner.{StringInterner}
use rpglot.Storage.Interner
use rpglot.Storage.Wal.{
  WalEntry, WalFrameError, truncated_header, FrameResult, read_wal_frame_validated, stop_error,
  recover_loop, load_loop, scan_loop,
}
use rpglot.Storage.Wal.Frame.{read_bounds, read_past}

-- An entry that was read, with where its frame begins and ends.
pub record Found : Type 0 where
  pub entry : WalEntry
  pub start : ℕ
  pub next : ℕ

module _ (crc32 : Crc32) (postcard : Postcard WalEntry) where
  abbrev read : Bytes → ℕ → FrameResult
  read = read_wal_frame_validated crc32 postcard

  -- From `position` on the data holds exactly these frames, and then something that is none.
  abbrev pub Frames : Bytes → ℕ → List Found → ℕ → WalFrameError → Type 0
  Frames bytes position [] end e = (end ≡ position) × (read bytes position ≡ err e)
  Frames bytes position (f ∷ fs) end e =
      (f.start ≡ position)
      × (read bytes position ≡ ok (f.entry, f.next))
      × Frames bytes f.next fs end e

  abbrev pub Log : Bytes → ℕ → Type 0
  Log bytes position =
      (fs : List Found) × (end : ℕ) × (e : WalFrameError) × Frames bytes position fs end e

  pub Log-from :
      (fuel : ℕ) (bytes : Bytes) (position : ℕ)
      → length bytes < fuel + position
      → Log bytes position
  Log-from zero bytes position h = (
    [],
    position,
    truncated_header,
    (refl, read_past crc32 postcard bytes position (omega arith)),
  )
  Log-from (suc fuel) bytes position h = elim (Result-cases (read bytes position)) [
    | inl ((entry, next), found) ↦
        let (fs, end, e, rest) =
          Log-from fuel bytes next
            (omega (arith, read_bounds crc32 postcard bytes position found)) in
        (record { entry = entry; start = position; next = next } ∷ fs, end, e, (refl, found, rest))
    | inr (e, stop) ↦ ([], position, e, (refl, stop))
  ]

  pub Frames-bounds :
      (bytes : Bytes) (position : ℕ) (fs : List Found) (end : ℕ) (e : WalFrameError)
      → Frames bytes position fs end e
      → position ≤ length bytes
      → (position + 8 * length fs ≤ end) × (end ≤ length bytes)
  Frames-bounds bytes position [] end e (here, _) h = omega arith
  Frames-bounds bytes position (f ∷ fs) end e (_, found, rest) h =
      let bound = read_bounds crc32 postcard bytes position found in
      omega (arith, Frames-bounds bytes f.next fs end e rest (bound.1))

  pub recover_loop-Frames :
      (fuel : ℕ) (bytes : Bytes) (position count : ℕ) (fs : List Found) (end : ℕ)
      (e : WalFrameError)
      → Frames bytes position fs end e
      → length fs < fuel
      → recover_loop crc32 postcard fuel bytes position position count
        ≡ some (record {
          recovered_count = count + length fs;
          valid_end_position = end;
          last_error = stop_error e (end == length bytes);
        })
  unfolding recover_loop
  recover_loop-Frames zero bytes position count fs end e w h = absurd (omega arith)
  recover_loop-Frames (suc fuel) bytes position count [] end e (here, stop) h = ground arith
  recover_loop-Frames (suc fuel) bytes position count (f ∷ fs) end e (_, found, rest) h =
      ground (arith, recover_loop-Frames fuel bytes f.next (count + 1) fs end e rest)

  abbrev pub merged : StringInterner → List Found → StringInterner
  merged i [] = i
  merged i (f ∷ fs) = merged (Interner.merge i f.entry.interner) fs

  pub load_loop-Frames :
      (fuel : ℕ) (bytes : Bytes) (position : ℕ) (snapshots : List Snapshot) (i : StringInterner)
      (fs : List Found) (end : ℕ) (e : WalFrameError)
      → Frames bytes position fs end e
      → length fs < fuel
      → load_loop crc32 postcard fuel bytes position snapshots i
        ≡ some (snapshots ++ map (λ f. f.entry.snapshot) fs, merged i fs)
  unfolding load_loop
  load_loop-Frames zero bytes position snapshots i fs end e w h = absurd (omega arith)
  load_loop-Frames (suc fuel) bytes position snapshots i [] end e (_, stop) h =
      ground (arith, append-nil snapshots)
  load_loop-Frames (suc fuel) bytes position snapshots i (f ∷ fs) end e (_, found, rest) h =
      let tail = map (λ (g : Found). g.entry.snapshot) fs in
      ground (
        arith,
        load_loop-Frames fuel bytes f.next (snapshots ++ f.entry.snapshot ∷ [])
            (Interner.merge i f.entry.interner) fs end e rest,
        append_assoc snapshots (f.entry.snapshot ∷ []) tail,
      )

  -- What scan_wal_metadata keeps of a frame.
  abbrev pub metadata : Found → ℕ × ℕ × ℤ
  metadata f = (f.start, f.next - f.start, f.entry.snapshot.timestamp)

  pub scan_loop-Frames :
      (fuel : ℕ) (bytes : Bytes) (position : ℕ) (entries : List (ℕ × ℕ × ℤ)) (fs : List Found)
      (end : ℕ) (e : WalFrameError)
      → Frames bytes position fs end e
      → length fs < fuel
      → scan_loop crc32 postcard fuel bytes position entries ≡ some (entries ++ map metadata fs)
  unfolding scan_loop
  scan_loop-Frames zero bytes position entries fs end e w h = absurd (omega arith)
  scan_loop-Frames (suc fuel) bytes position entries [] end e (_, stop) h =
      ground (arith, append-nil entries)
  scan_loop-Frames (suc fuel) bytes position entries (f ∷ fs) end e (start, found, rest) h =
      ground (
        arith,
        scan_loop-Frames fuel bytes f.next (entries ++ metadata f ∷ []) fs end e rest,
        append_assoc entries (metadata f ∷ []) (map metadata fs),
      )
