-- ===== src/Storage/Flush.antt =====
-- manager.rs, flush_chunk_with_time: the log becomes a chunk. Dates are numbers of days. The heatmap
-- that is written beside the chunk is left out: it changes neither the log nor the chunk.
pub mod Scan
pub mod Kept
use rpglot.Prelude.{
  ℕ, zero, suc, ◌+◌, ◌/◌, ◌%◌, Bool, Option, none, some, List, [], ◌∷◌, ◌++◌, length, get_elem?,
  ltb, ◌==◌, ◌&&◌, if◌then◌else◌,
}
use rpglot.Prelude.Bytes.{Bytes}
use rpglot.Prelude.Result.{Result, ok, err, map_err}
use rpglot.Model.Snapshot.{Snapshot}
use rpglot.Storage.External.{Postcard, Crc32, Zstd}
use rpglot.Storage.Hashes.{collect_snapshot_hashes, contains}
use rpglot.Storage.Interner
use rpglot.Storage.Interner.{StringInterner}
use rpglot.Storage.Wal.{WalEntry, read_wal_frame}
use rpglot.Storage.Chunk.Write.{
  ChunkError, external, panicked, bytes_or_empty, dict_max_size, write_chunk_with_trained_dict,
}

pub data FlushError : Type 0 where
  empty_wal empty_wal_file no_valid_entries wal_unreadable set_len_failed chunk_unwritable
        sync_failed :
      FlushError
  chunk_failed : ChunkError → FlushError

-- What the first pass collects.
pub record FirstPass : Type 0 where
  pub frame_offsets : List ℕ
  pub merged_interner : StringInterner
  pub used_hashes : List ℕ
  pub dict_samples : List Bytes
  pub scan_idx : ℕ

abbrev pub first_pass : FirstPass
first_pass = record {
  frame_offsets = [];
  merged_interner = Interner.new;
  used_hashes = [];
  dict_samples = [];
  scan_idx = 0;
}

-- `max(1)`
abbrev pub at_least_one : ℕ → ℕ
at_least_one zero = 1
at_least_one (suc n) = suc n

module _ (crc32 : Crc32) (wal_postcard : Postcard WalEntry) (zstd : Zstd)
    (snapshot_postcard : Postcard Snapshot) (interner_postcard : Postcard StringInterner) where
  -- About 20 samples for the dictionary; a snapshot that does not serialize is none.
  unfoldable pub sample : ℕ → FirstPass → Snapshot → List Bytes
  sample sample_interval pass snapshot =
      if pass.scan_idx % sample_interval == 0 && ltb (length pass.dict_samples) 20
      then elim (snapshot_postcard.to_allocvec snapshot) [
        | ok raw ↦ pass.dict_samples ++ raw ∷ []
        | err _ ↦ pass.dict_samples
      ]
      else pass.dict_samples

  unfoldable pub scan_entry : ℕ → FirstPass → ℕ → WalEntry → FirstPass
  scan_entry sample_interval pass position entry = record {
    frame_offsets = pass.frame_offsets ++ position ∷ [];
    merged_interner = Interner.merge pass.merged_interner entry.interner;
    used_hashes = pass.used_hashes ++ collect_snapshot_hashes entry.snapshot;
    dict_samples = sample sample_interval pass entry.snapshot;
    scan_idx = pass.scan_idx + 1;
  }

  unfoldable pub first_pass_loop : ℕ → ℕ → Bytes → ℕ → FirstPass → Option FirstPass
  first_pass_loop sample_interval zero wal_data position pass = none
  first_pass_loop sample_interval (suc fuel) wal_data position pass =
      elim (read_wal_frame crc32 wal_postcard wal_data position) [
        | some (entry, next) ↦
            first_pass_loop sample_interval fuel wal_data next
              (scan_entry sample_interval pass position entry)
        | none ↦ some pass
      ]

  unfoldable pub train : List Bytes → Bytes
  train [] = []
  train (s ∷ samples) = bytes_or_empty (zstd.from_samples (s ∷ samples) dict_max_size)

  -- The closure that reads a frame again, from its offset.
  unfoldable pub reread : Bytes → List ℕ → ℕ → Result ChunkError Snapshot
  reread wal_data frame_offsets idx = elim (get_elem? frame_offsets idx) [
    | none ↦ err panicked
    | some offset ↦ elim (read_wal_frame crc32 wal_postcard wal_data offset) [
      | some (entry, _) ↦ ok entry.snapshot
      | none ↦ err (external "WAL frame re-read failed")
    ]
  ]

  unfoldable pub second_pass : Bytes → FirstPass → Result FlushError Bytes
  second_pass wal_data pass =
      if length pass.frame_offsets == 0
      then err no_valid_entries
      else map_err chunk_failed (
          write_chunk_with_trained_dict zstd snapshot_postcard interner_postcard
            (length pass.frame_offsets) (train pass.dict_samples)
            (reread wal_data pass.frame_offsets)
            (Interner.filter pass.merged_interner (contains pass.used_hashes)))

  -- The chunk that a log of `wal_entries_count` entries becomes.
  unfoldable pub chunk_of_wal : ℕ → Bytes → Option (Result FlushError Bytes)
  chunk_of_wal wal_entries_count wal_data =
      elim (first_pass_loop (at_least_one (wal_entries_count / 20)) (suc (length wal_data)) wal_data
        0 first_pass) [ some pass ↦ some (second_pass wal_data pass) | none ↦ none ]
