-- ===== src/Tests/Wal.antt =====
-- The write-ahead log on files of a few frames.
use rpglot.Prelude.{ℕ, some, List, [], ◌∷◌, ◌++◌, ◌≡◌, refl, arith, take, map}
use rpglot.Prelude.Int.{ℤ, pos}
use rpglot.Prelude.Bytes.{Bytes, to_le_bytes, from_le_bytes, slice}
use rpglot.Prelude.Result.{err}
use rpglot.Model.Snapshot.{Snapshot}
use rpglot.Storage.Interner
use rpglot.Storage.Interner.{StringInterner}
use rpglot.Storage.Wal.{
  frame_too_large, framed, read_wal_frame_validated, read_wal_frame, recover_from_wal,
  load_wal_snapshots, scan_wal_metadata,
}
use rpglot.Storage.Wal.Frame.{length-framed}
use rpglot.Storage.Wal.Access.{readers_agree, load_each}
use rpglot.Storage.Wal.Written.{Written}
use rpglot.Storage.Wal.Recovery.{no_faults, recover_log, recover_torn, damaged_head}
use rpglot.Tests.Codecs.{sum_crc, entry_postcard, entry_of, snapshot_of}

abbrev pub frame : ℕ → Bytes
frame n = framed sum_crc entry_postcard (n ∷ [])

frame_7 : frame 7 ≡ 1 ∷ 0 ∷ 0 ∷ 0 ∷ 7 ∷ 0 ∷ 0 ∷ 0 ∷ 7 ∷ []
unfolding framed to_le_bytes
frame_7 = refl

abbrev pub two_frames : Bytes
two_frames = frame 7 ++ (frame 9 ++ [])

pub two-Written : Written sum_crc entry_postcard (entry_of 7 ∷ entry_of 9 ∷ []) two_frames
two-Written = (
  7 ∷ [],
  frame 9 ++ [],
  (refl, omega arith),
  refl,
  (9 ∷ [], [], (refl, omega arith), refl, refl),
)

-- A size field of 2 ^ 32 - 1, far above the limit.
abbrev damage : Bytes
damage = 255 ∷ 255 ∷ 255 ∷ 255 ∷ 0 ∷ 0 ∷ 0 ∷ 0 ∷ []

damage_read :
    read_wal_frame_validated sum_crc entry_postcard damage 0 ≡ err (frame_too_large 4294967295)
unfolding read_wal_frame_validated slice from_le_bytes
damage_read = refl

readers_agree_example :
    (snapshots : List Snapshot) × (interner : StringInterner) × (ranges : List (ℕ × ℕ × ℤ))
    × (load_wal_snapshots sum_crc entry_postcard two_frames ≡ some (snapshots, interner))
    × (scan_wal_metadata sum_crc entry_postcard two_frames ≡ some ranges)
    × (load_each sum_crc entry_postcard two_frames ranges ≡ map some snapshots)
    × (map (λ m. m.2) ranges ≡ map (λ s. s.timestamp) snapshots)
readers_agree_example = readers_agree sum_crc entry_postcard two_frames

recover_log_example :
    recover_from_wal sum_crc entry_postcard no_faults (two_frames ++ damage) ≡ some (two_frames, 2)
recover_log_example =
    recover_log sum_crc entry_postcard (entry_of 7 ∷ entry_of 9 ∷ []) two_frames damage
      (frame_too_large 4294967295) (cc) two-Written damage_read

recover_torn_example :
    recover_from_wal sum_crc entry_postcard no_faults (two_frames ++ take 3 (frame 5))
    ≡ some (two_frames, 2)
recover_torn_example =
    recover_torn sum_crc entry_postcard (entry_of 7 ∷ entry_of 9 ∷ []) two_frames (5 ∷ []) 3 (cc)
      two-Written (omega arith) (omega (arith, length-framed sum_crc entry_postcard (5 ∷ [])))

damaged_head_example :
    (recover_from_wal sum_crc entry_postcard no_faults damage ≡ some (damage, 0))
    × (load_wal_snapshots sum_crc entry_postcard (damage ++ frame 7) ≡ some ([], Interner.new))
damaged_head_example =
    damaged_head sum_crc entry_postcard damage (frame 7) (frame_too_large 4294967295) damage_read tt

-- Both snapshots of the log come back, with their order.
load_two :
    load_wal_snapshots sum_crc entry_postcard two_frames
    ≡ some (snapshot_of 7 ∷ snapshot_of 9 ∷ [], Interner.new)
unfolding load_wal_snapshots read_wal_frame_validated read_wal_frame framed to_le_bytes
    from_le_bytes slice Interner.new Interner.merge
load_two = refl

scan_two :
    scan_wal_metadata sum_crc entry_postcard two_frames ≡ some ((0, 9, pos 7) ∷ (9, 9, pos 9) ∷ [])
unfolding scan_wal_metadata read_wal_frame_validated read_wal_frame framed to_le_bytes from_le_bytes
    slice
scan_two = refl
