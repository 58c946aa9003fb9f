-- ===== src/Tests/Manager.antt =====
-- A manager whose log has two entries.
use rpglot.Prelude.{Bool, false, true, Option, some, List, [], ◌∷◌, ◌++◌, ◌≡◌, ◌⊎◌, refl, arith}
use rpglot.Prelude.Result.{ok}
use rpglot.Storage.Interner
use rpglot.Storage.Interner.{StringInterner}
use rpglot.Storage.Wal.{WalEntry, no_append_faults}
use rpglot.Storage.Wal.Written.{Payload}
use rpglot.Storage.Flush.{FlushError}
use rpglot.Storage.Manager.{
  StorageManager, Machine, flush_chunk_with_time, wal_entry, add_snapshot_at,
}
use rpglot.Storage.Manager.Steps.{Archived, flush_safe}
use rpglot.Storage.Manager.Added.{IsLog, InChunks}
use rpglot.Storage.Manager.Conserved.{add_conserves}
use rpglot.Tests.Codecs.{
  sum_crc, entry_postcard, stored_zstd, snapshot_postcard, interner_postcard, snapshot_of, entry_of,
}
use rpglot.Tests.Wal.{two_frames, two-Written}

abbrev no_strings : StringInterner
no_strings = record { strings = [] }

abbrev machine : Machine
machine = record {
  read_fails = false;
  write_fails = false;
  set_len_fails = false;
  sync_fails = false;
  now_nanos = 0;
}

abbrev manager : StorageManager
manager = record {
  chunks = [];
  chunk_size_limit = 3;
  wal_file = two_frames;
  wal_entries_count = 2;
  current_hour = some 5;
  current_date = some 100;
}

flush_safe_example :
    (after : StorageManager) × (e : Option FlushError) × (flush_chunk_with_time sum_crc
        entry_postcard stored_zstd snapshot_postcard interner_postcard machine 100 5 manager
      ≡ some (after, e))
    × (((after.wal_file ≡ two_frames) × (after.wal_entries_count ≡ 2))
        ⊎ ((after.wal_file ≡ [])
            × Archived sum_crc entry_postcard stored_zstd snapshot_postcard interner_postcard
                manager after
            × ((false ≡ true) ⊎ (after.wal_entries_count ≡ 0))))
flush_safe_example =
    flush_safe sum_crc entry_postcard stored_zstd snapshot_postcard interner_postcard machine 100 5
      manager

entry_5 : Payload sum_crc entry_postcard (wal_entry (snapshot_of 5) no_strings) (5 ∷ [])
unfolding wal_entry Interner.filter
entry_5 = (refl, omega arith)

-- The hour of the log is over.
add_conserves_example :
    (after : StorageManager) × (flushed : Bool) × (first : List WalEntry) × (second : List WalEntry)
    × (rest : List WalEntry) × (add_snapshot_at sum_crc entry_postcard stored_zstd snapshot_postcard
          interner_postcard machine no_append_faults machine
          (snapshot_of 5)
          100
          6
          no_strings
          manager
        ≡ some (ok (after, flushed)))
    × (entry_of 7 ∷ entry_of 9 ∷ wal_entry (snapshot_of 5) no_strings ∷ []
        ≡ first ++ (second ++ rest))
    × InChunks sum_crc entry_postcard stored_zstd snapshot_postcard interner_postcard after first
    × InChunks sum_crc entry_postcard stored_zstd snapshot_postcard interner_postcard after second
    × IsLog sum_crc entry_postcard stored_zstd snapshot_postcard interner_postcard after rest
add_conserves_example =
    add_conserves sum_crc entry_postcard stored_zstd snapshot_postcard interner_postcard machine
      machine (snapshot_of 5) 100 6 no_strings manager (entry_of 7 ∷ entry_of 9 ∷ []) (5 ∷ []) refl
      refl (two-Written, refl) entry_5
