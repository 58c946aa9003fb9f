-- ===== src/Storage/Wal.antt =====
-- crates/rpglot-core/src/storage/manager.rs: the frames of the write-ahead log, read_wal_frame and
-- the loops that walk the log. A loop's fuel is one more than the length of the data: a round that
-- goes on has read a frame, and a frame has 8 bytes at least (Wal/Walk).
pub mod Frame
pub mod Walk
pub mod Written
pub mod Access
pub mod Recovery
use rpglot.Prelude.{
  ℕ, zero, suc, ◌+◌, ◌-◌, ◌*◌, ◌%◌, ◌^◌, Bool, true, false, String, Option, none, some, List, [],
  ◌∷◌, ◌++◌, ltb, ◌==◌, if◌then◌else◌, length, take, ◌&&◌,
}
use rpglot.Prelude.Int.{ℤ}
use rpglot.Prelude.Bytes.{Bytes, to_le_bytes, from_le_bytes, slice}
use rpglot.Prelude.Result.{Result, ok, err, map_err, to_option, ◌>>=◌}
use rpglot.Model.Snapshot.{Snapshot}
use rpglot.Storage.Interner.{StringInterner}
use rpglot.Storage.Interner
use rpglot.Storage.External.{Postcard, Crc32}

pub record WalEntry : Type 0 where
  pub snapshot : Snapshot
  pub interner : StringInterner

abbrev pub wal_frame_header_size : ℕ
wal_frame_header_size = 8

abbrev pub max_wal_entry_size : ℕ
max_wal_entry_size = 256 * 1024 * 1024

pub data WalFrameError : Type 0 where
  truncated_header : WalFrameError
  frame_too_large : ℕ → WalFrameError
  truncated_payload : ℕ → ℕ → WalFrameError
  crc_mismatch : ℕ → ℕ → WalFrameError
  deserialization_failed : String → WalFrameError

-- What a read of a frame returns: the entry, and the position behind the frame.
abbrev pub FrameResult : Type 0
FrameResult = Result WalFrameError (WalEntry × ℕ)

-- The end of the data exactly behind a frame is no error.
abbrev pub stop_error : WalFrameError → Bool → Option WalFrameError
stop_error truncated_header true = none
stop_error e _ = some e

-- Where recovery stops: how many frames it read, the end of the last, and the error met there.
pub record Stop : Type 0 where
  pub recovered_count : ℕ
  pub valid_end_position : ℕ
  pub last_error : Option WalFrameError

-- The errors of the three writes and of the sync of write_wal_frame, where these fail.
pub record AppendFaults : Type 0 where
  pub length_error : Option String
  pub crc_error : Option String
  pub payload_error : Option String
  pub sync_error : Option String

abbrev pub no_append_faults : AppendFaults
no_append_faults = record {
  length_error = none;
  crc_error = none;
  payload_error = none;
  sync_error = none;
}

-- `file.write_all(bytes).unwrap()`
unfoldable pub write_all : Option String → Bytes → Bytes → Result String Bytes
write_all none bytes file = ok (file ++ bytes)
write_all (some e) bytes file = err e

-- `file.sync_all().unwrap()`
unfoldable pub sync_all : Option String → Bytes → Result String Bytes
sync_all none file = ok file
sync_all (some e) file = err e

module _ (crc32 : Crc32) (postcard : Postcard WalEntry) where
  -- A payload behind its length and its checksum.
  unfoldable pub framed : Bytes → Bytes
  framed encoded =
      let size = length encoded % 2 ^ 32 in
      to_le_bytes 4 size ++ (to_le_bytes 4 (crc32.hash encoded) ++ encoded)

  -- The file is open for appending. The error is a panic: a payload that does not serialize, or a call
  -- that fails.
  unfoldable pub write_wal_frame : AppendFaults → Bytes → WalEntry → Result String Bytes
  unfolding write_all sync_all
  write_wal_frame faults file entry = do
    encoded ← postcard.to_allocvec entry
    let size = length encoded % 2 ^ 32
    with_length ← write_all faults.length_error (to_le_bytes 4 size) file
    with_crc ← write_all faults.crc_error (to_le_bytes 4 (crc32.hash encoded)) with_length
    with_payload ← write_all faults.payload_error encoded with_crc
    sync_all faults.sync_error with_payload

  pub decode_payload : Bytes → ℕ → FrameResult
  decode_payload payload payload_end = do
    entry ← map_err deserialization_failed (postcard.from_bytes payload)
    ok (entry, payload_end)

  unfoldable pub read_wal_frame_validated : Bytes → ℕ → FrameResult
  unfolding decode_payload
  read_wal_frame_validated bytes position =
      if ltb (length bytes) (position + wal_frame_header_size)
      then err truncated_header
      else let size = from_le_bytes (slice bytes position 4) in
        let expected_crc = from_le_bytes (slice bytes (position + 4) 4) in
        let payload_end = position + wal_frame_header_size + size in
        if ltb max_wal_entry_size size
        then err (frame_too_large size)
        else if ltb (length bytes) payload_end
        then err (truncated_payload size (length bytes - position - wal_frame_header_size))
        else let payload = slice bytes (position + wal_frame_header_size) size in
          let actual_crc = crc32.hash payload in
          if actual_crc == expected_crc
          then decode_payload payload payload_end
          else err (crc_mismatch expected_crc actual_crc)

  unfoldable pub read_wal_frame : Bytes → ℕ → Option (WalEntry × ℕ)
  read_wal_frame bytes position = to_option (read_wal_frame_validated bytes position)

  pub recover_loop : ℕ → Bytes → ℕ → ℕ → ℕ → Option Stop
  recover_loop zero bytes position valid_end count = none
  recover_loop (suc fuel) bytes position valid_end count =
      elim (read_wal_frame_validated bytes position) [
        | ok (entry, next) ↦ recover_loop fuel bytes next next (count + 1)
        | err e ↦ some (record {
          recovered_count = count;
          valid_end_position = valid_end;
          last_error = stop_error e (position == length bytes);
        })
      ]

  pub load_loop :
      ℕ → Bytes → ℕ → List Snapshot → StringInterner → Option (List Snapshot × StringInterner)
  unfolding read_wal_frame
  load_loop zero bytes position snapshots merged = none
  load_loop (suc fuel) bytes position snapshots merged = elim (read_wal_frame bytes position) [
    | some (entry, next) ↦
        load_loop fuel bytes next (snapshots ++ entry.snapshot ∷ [])
          (Interner.merge merged entry.interner)
    | none ↦ some (snapshots, merged)
  ]

  -- An entry is its offset, its length with the header, and its timestamp.
  pub scan_loop : ℕ → Bytes → ℕ → List (ℕ × ℕ × ℤ) → Option (List (ℕ × ℕ × ℤ))
  unfolding read_wal_frame
  scan_loop zero bytes position entries = none
  scan_loop (suc fuel) bytes position entries = elim (read_wal_frame bytes position) [
    | some (entry, next) ↦
        scan_loop fuel bytes next
          (entries ++ (position, next - position, entry.snapshot.timestamp) ∷ [])
    | none ↦ some entries
  ]

  -- load_wal_snapshots_with_interner, where wal.log could be read
  unfoldable pub load_wal_snapshots : Bytes → Option (List Snapshot × StringInterner)
  unfolding load_loop
  load_wal_snapshots [] = some ([], Interner.new)
  load_wal_snapshots (b ∷ bytes) =
      load_loop (suc (length (b ∷ bytes))) (b ∷ bytes) 0 [] Interner.new

  -- scan_wal_metadata, where wal.log could be read
  unfoldable pub scan_wal_metadata : Bytes → Option (List (ℕ × ℕ × ℤ))
  unfolding scan_loop
  scan_wal_metadata [] = some []
  scan_wal_metadata (b ∷ bytes) = scan_loop (suc (length (b ∷ bytes))) (b ∷ bytes) 0 []

  -- The bytes from `offset` on are read from the file; `none` is an I/O error.
  unfoldable pub load_wal_snapshot_with_interner :
      Bytes → ℕ → ℕ → Option (Snapshot × StringInterner)
  unfolding read_wal_frame
  load_wal_snapshot_with_interner file offset size =
      if ltb (length file) (offset + size)
      then none
      else elim (read_wal_frame (slice file offset size) 0) [
        | some (entry, _) ↦ some (entry.snapshot, entry.interner)
        | none ↦ none
      ]

  unfoldable pub load_wal_snapshot_at : Bytes → ℕ → ℕ → Option Snapshot
  unfolding load_wal_snapshot_with_interner
  load_wal_snapshot_at file offset size = elim (load_wal_snapshot_with_interner file offset size) [
    | some (snapshot, _) ↦ some snapshot
    | none ↦ none
  ]

-- What may go wrong with wal.log in recover_from_wal: the file cannot be read, or not be cut.
pub record WalFaults : Type 0 where
  pub read_fails : Bool
  pub set_len_fails : Bool

-- The file that recovery leaves: it is cut behind the last valid frame if there is one.
pub truncate_wal : WalFaults → Bytes → ℕ → Bytes
truncate_wal faults file valid_end =
    if ltb valid_end (length file) && ltb 0 valid_end
    then (if faults.set_len_fails then file else take valid_end file)
    else file

-- Returns wal.log and the entry count. The removal of the obsolete strings.bin is left out.
unfoldable pub recover_from_wal : Crc32 → Postcard WalEntry → WalFaults → Bytes → Option (Bytes × ℕ)
unfolding truncate_wal
recover_from_wal crc32 postcard faults [] = some ([], 0)
recover_from_wal crc32 postcard faults (b ∷ bytes) =
    let file = b ∷ bytes in
    if faults.read_fails
    then some (file, 0)
    else elim (recover_loop crc32 postcard (suc (length file)) file 0 0 0) [
      | some stop ↦ some (truncate_wal faults file stop.valid_end_position, stop.recovered_count)
      | none ↦ none
    ]
