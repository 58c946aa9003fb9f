-- ===== src/Storage/Manager/Added.antt =====
-- add_snapshot_at: where the entries of the log go.
use rpglot.Prelude.{
  ℕ, Bool, true, false, Option, some, List, [], ◌∷◌, ◌≡◌, ◌≢◌, sym, ap, ◌∙◌, ◌⊎◌, inl, inr, arith,
  Option-cases, length,
}
use rpglot.Prelude.Bytes.{Bytes}
use rpglot.Prelude.Result.{ok}
use rpglot.Model.Snapshot.{Snapshot}
use rpglot.Storage.External.{Postcard, Crc32, Zstd}
use rpglot.Storage.Interner.{StringInterner}
use rpglot.Storage.Wal.{WalEntry}
use rpglot.Storage.Wal.Written.{Written}
use rpglot.Storage.Flush.{FlushError}
use rpglot.Storage.Manager.{
  ChunkName, StorageManager, Machine, find_chunk, put_chunk, final_name, empty_the_wal, save_chunk,
  hour_is_over, flush_last_hour,
}
use rpglot.Storage.Manager.Steps.{
  same_name-hour, find-put, name_for, made_of, flush, flush-saved, flush-cases, flush_returns,
}

-- A name of another hour.
abbrev pub Other : ℕ → ℕ → ChunkName → Type 0
Other date hour name = (name.date ≢ date) ⊎ (name.hour ≢ hour)

final_name-hour :
    (now_nanos date hour : ℕ) (chunks : List (ChunkName × Bytes))
    → ((final_name now_nanos date hour chunks).date ≡ date)
      × ((final_name now_nanos date hour chunks).hour ≡ hour)
unfolding final_name
final_name-hour now_nanos date hour chunks = ground arith

find-put-Other :
    (name k : ChunkName) (file : Bytes) (chunks : List (ChunkName × Bytes))
    → Other name.date name.hour k
    → find_chunk k (put_chunk name file chunks) ≡ find_chunk k chunks
unfolding find_chunk put_chunk
find-put-Other name k file [] h = ground (arith, same_name-hour name k)
find-put-Other name k file ((n, old) ∷ chunks) h = ground (
  arith,
  find-put-Other name k file chunks h,
  same_name-hour name k,
  same_name-hour n k,
  same_name-hour n name,
)

save_chunk-chunks :
    (machine : Machine) (date hour : ℕ) (m : StorageManager) (file : Bytes)
    → ((save_chunk machine date hour m file).0.chunks ≡ m.chunks)
      ⊎ ((save_chunk machine date hour m file).0.chunks
          ≡ put_chunk (name_for machine date hour m) file m.chunks)
unfolding save_chunk empty_the_wal
save_chunk-chunks machine date hour m file = ground arith

save_chunk-others :
    (machine : Machine) (date hour : ℕ) (m : StorageManager) (file : Bytes) (k : ChunkName)
    → Other date hour k
    → find_chunk k (save_chunk machine date hour m file).0.chunks ≡ find_chunk k m.chunks
save_chunk-others machine date hour m file k h = elim (save_chunk-chunks machine date hour m file) [
  | inl same ↦ ap (find_chunk k) same
  | inr put ↦
      ap (find_chunk k) put
      ∙ find-put-Other (name_for machine date hour m) k file m.chunks
          (ground (arith, final_name-hour machine.now_nanos date hour m.chunks))
]

hour_is_over-Other :
    (date hour : ℕ) (m : StorageManager) (prev_date prev_hour : ℕ) (name : ChunkName)
    → hour_is_over date hour m ≡ some (prev_date, prev_hour)
    → name.date ≡ prev_date
    → name.hour ≡ prev_hour
    → Other date hour name
unfolding hour_is_over
hour_is_over-Other date hour m prev_date prev_hour name h d e = ground arith

module _ (crc32 : Crc32) (wal_postcard : Postcard WalEntry) (zstd : Zstd)
    (snapshot_postcard : Postcard Snapshot) (interner_postcard : Postcard StringInterner) where
  pub flush-others :
      (machine : Machine) (date hour : ℕ) (m after : StorageManager) (e : Option FlushError)
      (k : ChunkName)
      → flush crc32 wal_postcard zstd snapshot_postcard interner_postcard machine date hour m
        ≡ some (after, e)
      → Other date hour k
      → find_chunk k after.chunks ≡ find_chunk k m.chunks
  flush-others machine date hour m after e k h other =
      elim (flush-saved crc32 wal_postcard zstd snapshot_postcard interner_postcard machine date
        hour m after e h) [
          | inl same ↦ ap (λ x. find_chunk k x.chunks) same
          | inr (file, made, saved) ↦
              ap (λ x. find_chunk k x.chunks) saved
              ∙ save_chunk-others machine date hour m file k other
        ]

  -- The log of `m` is these entries, and they are counted.
  abbrev pub IsLog : StorageManager → List WalEntry → Type 0
  IsLog m es = Written crc32 wal_postcard es m.wal_file × (m.wal_entries_count ≡ length es)

  -- The chunk with this name is what a log of these entries becomes.
  abbrev pub IsChunkOf : StorageManager → ChunkName → List WalEntry → Type 0
  IsChunkOf m name es =
      (log : Bytes) × (file : Bytes) × Written crc32 wal_postcard es log
      × (made_of crc32 wal_postcard zstd snapshot_postcard interner_postcard (length es) log
          ≡ some (ok file))
      × (find_chunk name m.chunks ≡ some file)

  abbrev pub InChunks : StorageManager → List WalEntry → Type 0
  InChunks m es = (es ≡ []) ⊎ ((name : ChunkName) × IsChunkOf m name es)

  -- A flush leaves the log alone, or moves it into a chunk of that hour.
  pub flush-IsLog :
      (machine : Machine) (date hour : ℕ) (m after : StorageManager) (e : Option FlushError)
      (es : List WalEntry)
      → machine.sync_fails ≡ false
      → IsLog m es
      → flush crc32 wal_postcard zstd snapshot_postcard interner_postcard machine date hour m
        ≡ some (after, e)
      → IsLog after es
        ⊎ (IsLog after []
            × (name : ChunkName) × IsChunkOf after name es
            × (name.date ≡ date)
            × (name.hour ≡ hour))
  flush-IsLog machine date hour m after e es syncs (log, counted) h =
      elim (flush-cases crc32 wal_postcard zstd snapshot_postcard interner_postcard machine date
        hour m after e h) [
          | inl (file_eq, count_eq) ↦ inl (rw file_eq log, count_eq ∙ counted)
          | inr (file, made, emptied, chunks, count) ↦
              let name = name_for machine date hour m in
              let named = final_name-hour machine.now_nanos date hour m.chunks in
              inr (
                (emptied, ground arith),
                name,
                (
                  m.wal_file,
                  file,
                  log,
                  rw (sym counted) made,
                  ap (find_chunk name) chunks ∙ find-put name file m.chunks,
                ),
                named.0,
                named.1,
              )
        ]

  -- The first flush moves the log into a chunk of the hour that is over, or does nothing.
  pub last_hour-IsLog :
      (machine : Machine) (date hour : ℕ) (m : StorageManager) (es : List WalEntry)
      → machine.sync_fails ≡ false
      → IsLog m es
      → (after : StorageManager) × (flushed : Bool) × (flush_last_hour crc32 wal_postcard zstd
            snapshot_postcard interner_postcard machine date hour m
          ≡ some (after, flushed))
        × (IsLog after es
            ⊎ (IsLog after []
                × (name : ChunkName) × IsChunkOf after name es
                × Other date hour name))
  unfolding flush_last_hour
  last_hour-IsLog machine date hour m es syncs islog =
      elim (Option-cases (hour_is_over date hour m)) [
        | inl running ↦ (m, false, ground arith, inl islog)
        | inr ((prev_date, prev_hour), over) ↦
            let (after, e, found) =
              flush_returns crc32 wal_postcard zstd snapshot_postcard interner_postcard machine
                prev_date prev_hour m in
            (
              after,
              true,
              ground (arith, found),
              elim (flush-IsLog machine prev_date prev_hour m after e es syncs islog found) [
                | inl same ↦ inl same
                | inr (empty, name, chunk, d, h) ↦ inr (
                  empty,
                  name,
                  chunk,
                  hour_is_over-Other date hour m prev_date prev_hour name over d h,
                )
              ],
            )
      ]
