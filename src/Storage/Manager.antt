-- ===== src/Storage/Manager.antt =====
-- manager.rs, StorageManager: the log, the chunks and the hour that is being written. Dates are
-- numbers of days, and a chunk's file name is its parts. wal.log is the content of `wal_file`.
pub mod Steps
pub mod Added
pub mod Conserved
use rpglot.Prelude.{
  ℕ, ◌+◌, Bool, true, false, not, Option, none, some, List, [], ◌∷◌, ◌++◌, String, length, ltb, leb,
  ◌==◌, ◌&&◌, ◌||◌, if◌then◌else◌,
}
use rpglot.Prelude.Bytes.{Bytes}
use rpglot.Prelude.Result.{Result, ok, err}
use rpglot.Model.Snapshot.{Snapshot}
use rpglot.Storage.External.{Postcard, Crc32, Zstd}
use rpglot.Storage.Hashes.{collect_snapshot_hashes, contains}
use rpglot.Storage.Interner
use rpglot.Storage.Interner.{StringInterner}
use rpglot.Storage.Wal.{WalEntry, AppendFaults, write_wal_frame}
use rpglot.Storage.Flush.{
  FlushError, empty_wal, empty_wal_file, wal_unreadable, chunk_unwritable, set_len_failed,
  sync_failed, chunk_of_wal,
}

-- rpglot_<date>_<hour>.zst, or rpglot_<date>_<hour>_<nanos>.zst
pub record ChunkName : Type 0 where
  pub date : ℕ
  pub hour : ℕ
  pub nanos : Option ℕ

pub record StorageManager : Type 0 where
  pub chunks : List (ChunkName × Bytes)
  pub chunk_size_limit : ℕ
  pub wal_file : Bytes
  pub wal_entries_count : ℕ
  pub current_hour : Option ℕ
  pub current_date : Option ℕ

-- What the machine does during a flush: which calls fail, and the time.
pub record Machine : Type 0 where
  pub read_fails : Bool
  pub write_fails : Bool
  pub set_len_fails : Bool
  pub sync_fails : Bool
  pub now_nanos : ℕ

unfoldable pub same_nanos : Option ℕ → Option ℕ → Bool
same_nanos none none = true
same_nanos (some a) (some b) = a == b
same_nanos _ _ = false

unfoldable pub same_name : ChunkName → ChunkName → Bool
unfolding same_nanos
same_name a b = a.date == b.date && (a.hour == b.hour && same_nanos a.nanos b.nanos)

unfoldable pub find_chunk : ChunkName → List (ChunkName × Bytes) → Option Bytes
find_chunk name [] = none
find_chunk name ((n, file) ∷ chunks) =
    if same_name n name then some file else find_chunk name chunks

-- The rename of the finished file: it takes the place of one with its name.
unfoldable pub put_chunk : ChunkName → Bytes → List (ChunkName × Bytes) → List (ChunkName × Bytes)
put_chunk name file [] = (name, file) ∷ []
put_chunk name file ((n, old) ∷ chunks) =
    let rest = put_chunk name file chunks in
    if same_name n name then (name, file) ∷ chunks else (n, old) ∷ rest

-- A name that is taken gets the time behind it.
unfoldable pub final_name : ℕ → ℕ → ℕ → List (ChunkName × Bytes) → ChunkName
final_name now_nanos date hour chunks =
    let name : ChunkName = record { date = date; hour = hour; nanos = none } in
    elim (find_chunk name chunks) [
      | none ↦ name
      | some _ ↦ record { date = date; hour = hour; nanos = some now_nanos }
    ]

-- What a step leaves, and its error if it has one.
abbrev pub Outcome : Type 0
Outcome = StorageManager × Option FlushError

-- The log is emptied, in three calls.
unfoldable pub empty_the_wal : Machine → StorageManager → Outcome
empty_the_wal machine m =
    if machine.set_len_fails
    then (m, some set_len_failed)
    else if machine.sync_fails
    then (record m { wal_file = [] }, some sync_failed)
    else (record m { wal_file = []; wal_entries_count = 0 }, none)

unfoldable pub save_chunk : Machine → ℕ → ℕ → StorageManager → Bytes → Outcome
save_chunk machine date hour m file =
    if machine.write_fails
    then (m, some chunk_unwritable)
    else empty_the_wal machine (record m {
      chunks = put_chunk (final_name machine.now_nanos date hour m.chunks) file m.chunks;
    })

-- The hour of the last snapshot is over, and the log has entries.
unfoldable pub hour_is_over : ℕ → ℕ → StorageManager → Option (ℕ × ℕ)
hour_is_over date hour m = elim (m.current_hour) [
  | none ↦ none
  | some prev_hour ↦ elim (m.current_date) [
    | none ↦ none
    | some prev_date ↦
        if (not (prev_hour == hour) || not (prev_date == date)) && ltb 0 m.wal_entries_count
        then some (prev_date, prev_hour)
        else none
  ]
]

-- The entry that is logged: the strings are those that the snapshot uses.
unfoldable pub wal_entry : Snapshot → StringInterner → WalEntry
wal_entry snapshot interner = record {
  snapshot = snapshot;
  interner = Interner.filter interner (contains (collect_snapshot_hashes snapshot));
}

module _ (crc32 : Crc32) (wal_postcard : Postcard WalEntry) (zstd : Zstd)
    (snapshot_postcard : Postcard Snapshot) (interner_postcard : Postcard StringInterner) where
  -- `none` would be a loop that does not end.
  unfoldable pub flush_chunk_with_time : Machine → ℕ → ℕ → StorageManager → Option Outcome
  flush_chunk_with_time machine date hour m =
      if m.wal_entries_count == 0
      then some (m, some empty_wal)
      else if machine.read_fails
      then some (m, some wal_unreadable)
      else if length m.wal_file == 0
      then some (m, some empty_wal_file)
      else elim (chunk_of_wal crc32 wal_postcard zstd snapshot_postcard interner_postcard
          m.wal_entries_count m.wal_file) [
            | none ↦ none
            | some (err e) ↦ some (m, some e)
            | some (ok file) ↦ some (save_chunk machine date hour m file)
          ]

  -- The flush at the boundary of an hour. Its error is ignored.
  unfoldable pub flush_last_hour : Machine → ℕ → ℕ → StorageManager → Option (StorageManager × Bool)
  flush_last_hour machine date hour m = elim (hour_is_over date hour m) [
    | none ↦ some (m, false)
    | some (prev_date, prev_hour) ↦ elim (flush_chunk_with_time machine prev_date prev_hour m) [
      | none ↦ none
      | some (after, _) ↦ some (after, true)
    ]
  ]

  -- The flush at the size limit. Its error is ignored.
  unfoldable pub flush_full :
      Machine → ℕ → ℕ → StorageManager → Bool → Option (StorageManager × Bool)
  flush_full machine date hour m flushed =
      if leb m.chunk_size_limit m.wal_entries_count
      then elim (flush_chunk_with_time machine date hour m) [
        | none ↦ none
        | some (after, _) ↦ some (after, true)
      ]
      else some (m, flushed)

  -- The write; a snapshot that does not serialize is a panic, and a write or a sync that fails.
  unfoldable pub log_snapshot :
      AppendFaults
      → ℕ
      → ℕ
      → Snapshot
      → StringInterner
      → StorageManager
      → Result String StorageManager
  log_snapshot faults date hour snapshot interner m =
      elim (write_wal_frame crc32 wal_postcard faults m.wal_file (wal_entry snapshot interner)) [
        | err e ↦ err e
        | ok file ↦ ok (record m {
          wal_file = file;
          wal_entries_count = m.wal_entries_count + 1;
          current_hour = some hour;
          current_date = some date;
        })
      ]

  -- Returns the manager and whether a chunk was flushed. The two flushes may meet two machines.
  unfoldable pub add_snapshot_at :
      Machine
      → AppendFaults
      → Machine
      → Snapshot
      → ℕ
      → ℕ
      → StringInterner
      → StorageManager
      → Option (Result String (StorageManager × Bool))
  add_snapshot_at machine₁ faults machine₂ snapshot date hour interner m =
      elim (flush_last_hour machine₁ date hour m) [
        | none ↦ none
        | some (m₁, flushed) ↦ elim (log_snapshot faults date hour snapshot interner m₁) [
          | err e ↦ some (err e)
          | ok m₂ ↦ elim (flush_full machine₂ date hour m₂ flushed) [
            | none ↦ none
            | some r ↦ some (ok r)
          ]
        ]
      ]
