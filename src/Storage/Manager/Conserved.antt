-- ===== src/Storage/Manager/Conserved.antt =====
-- add_snapshot_at loses no entry.
use rpglot.Prelude.{
  Option, String, ℕ, ◌+◌, Bool, false, true, some, List, [], ◌∷◌, ◌++◌, ◌≡◌, sym, ap, ◌∙◌, ◌⊎◌, inl,
  inr, refl, arith, length-append, append-nil, leb, Bool-cases,
}
use rpglot.Prelude.Bytes.{Bytes}
use rpglot.Prelude.Result.{Result, ok}
use rpglot.Model.Snapshot.{Snapshot}
use rpglot.Storage.External.{Postcard, Crc32, Zstd}
use rpglot.Storage.Interner.{StringInterner}
use rpglot.Storage.Wal.{WalEntry, no_append_faults}
use rpglot.Storage.Wal.Written.{Payload, write-Written}
use rpglot.Storage.Manager.{
  ChunkName, StorageManager, Machine, find_chunk, flush_last_hour, flush_full, wal_entry,
  log_snapshot, add_snapshot_at,
}
use rpglot.Storage.Manager.Steps.{flush_returns}
use rpglot.Storage.Manager.Added.{
  Other, IsLog, IsChunkOf, InChunks, flush-others, flush-IsLog, last_hour-IsLog,
}

module _ (crc32 : Crc32) (wal_postcard : Postcard WalEntry) (zstd : Zstd)
    (snapshot_postcard : Postcard Snapshot) (interner_postcard : Postcard StringInterner) where
  abbrev Logs : StorageManager → List WalEntry → Type 0
  Logs = IsLog crc32 wal_postcard zstd snapshot_postcard interner_postcard

  abbrev ChunkOf : StorageManager → ChunkName → List WalEntry → Type 0
  ChunkOf = IsChunkOf crc32 wal_postcard zstd snapshot_postcard interner_postcard

  log_snapshot-IsLog :
      (date hour : ℕ) (snapshot : Snapshot) (interner : StringInterner) (m : StorageManager)
      (es : List WalEntry) (encoded : Bytes)
      → Logs m es
      → Payload crc32 wal_postcard (wal_entry snapshot interner) encoded
      → (after : StorageManager) × (log_snapshot crc32 wal_postcard zstd snapshot_postcard
            interner_postcard no_append_faults date hour snapshot interner m
          ≡ ok after)
        × Logs after (es ++ wal_entry snapshot interner ∷ [])
        × (after.chunks ≡ m.chunks)
  unfolding log_snapshot
  log_snapshot-IsLog date hour snapshot interner m es encoded (log, counted) p =
      let e = wal_entry snapshot interner in
      let (file, wrote, written) = write-Written crc32 wal_postcard es e m.wal_file encoded log p in
      (
        record m {
          wal_file = file;
          wal_entries_count = m.wal_entries_count + 1;
          current_hour = some hour;
          current_date = some date;
        },
        ground (arith, wrote),
        (written, omega (arith, counted, length-append es (e ∷ []))),
        refl,
      )

  full-IsLog :
      (machine : Machine) (date hour : ℕ) (m : StorageManager) (flushed : Bool) (es : List WalEntry)
      → machine.sync_fails ≡ false
      → Logs m es
      → (after : StorageManager) × (done : Bool) × (flush_full crc32 wal_postcard zstd
            snapshot_postcard interner_postcard machine date hour m flushed
          ≡ some (after, done))
        × (Logs after es ⊎ (Logs after [] × (name : ChunkName) × ChunkOf after name es))
        × ((k : ChunkName) → Other date hour k → find_chunk k after.chunks ≡ find_chunk k m.chunks)
  unfolding flush_full
  full-IsLog machine date hour m flushed es syncs log =
      elim (Bool-cases (leb m.chunk_size_limit m.wal_entries_count)) [
        | inl full ↦
            let (after, e, found) =
              flush_returns crc32 wal_postcard zstd snapshot_postcard interner_postcard machine date
                hour m in
            (
              after,
              true,
              ground (arith, found),
              elim (flush-IsLog crc32 wal_postcard zstd snapshot_postcard interner_postcard machine
                  date hour m after e es syncs log found) [
                    | inl same ↦ inl same
                    | inr (empty, name, chunk, _, _) ↦ inr (empty, name, chunk)
                  ],
              λ k other.
                  flush-others crc32 wal_postcard zstd snapshot_postcard interner_postcard machine
                    date hour m after e k found other,
            )
        | inr room ↦ (m, flushed, ground arith, inl log, λ k other. refl)
      ]

  abbrev Archive : StorageManager → List WalEntry → Type 0
  Archive = InChunks crc32 wal_postcard zstd snapshot_postcard interner_postcard

  abbrev add :
      Machine
      → Machine
      → Snapshot
      → ℕ
      → ℕ
      → StringInterner
      → StorageManager
      → Option (Result String (StorageManager × Bool))
  add machine₁ =
      add_snapshot_at crc32 wal_postcard zstd snapshot_postcard interner_postcard machine₁
        no_append_faults

  -- What stands behind the first flush: the write and the flush at the limit.
  abbrev Behind :
      Machine
      → Machine
      → Snapshot
      → ℕ
      → ℕ
      → StringInterner
      → StorageManager
      → StorageManager
      → List WalEntry
      → Type 0
  Behind machine₁ machine₂ snapshot date hour interner m m₁ es =
      (after : StorageManager) × (done : Bool) × (past : List WalEntry) × (rest : List WalEntry)
      × (add machine₁ machine₂ snapshot date hour interner m ≡ some (ok (after, done)))
      × (es ++ wal_entry snapshot interner ∷ [] ≡ past ++ rest)
      × Logs after rest
      × Archive after past
      × ((k : ChunkName) → Other date hour k → find_chunk k after.chunks ≡ find_chunk k m₁.chunks)

  Behind-first :
      (machine₁ machine₂ : Machine) (snapshot : Snapshot) (date hour : ℕ)
      (interner : StringInterner) (m m₁ : StorageManager) (flushed : Bool) (es : List WalEntry)
      (encoded : Bytes)
      → machine₂.sync_fails ≡ false
      → Payload crc32 wal_postcard (wal_entry snapshot interner) encoded
      → flush_last_hour crc32 wal_postcard zstd snapshot_postcard interner_postcard machine₁ date
          hour m
        ≡ some (m₁, flushed)
      → Logs m₁ es
      → Behind machine₁ machine₂ snapshot date hour interner m m₁ es
  unfolding add_snapshot_at
  Behind-first machine₁ machine₂ snapshot date hour interner m m₁ flushed es encoded syncs p first
        log₁ =
      let e = wal_entry snapshot interner in
      let (m₂, wrote, log₂, same) =
        log_snapshot-IsLog date hour snapshot interner m₁ es encoded log₁ p in
      let (m₃, done, second, last, others) =
        full-IsLog machine₂ date hour m₂ flushed (es ++ e ∷ []) syncs log₂ in
      let ran : add machine₁ machine₂ snapshot date hour interner m ≡ some (ok (m₃, done)) =
        ground (arith, first, wrote, second) in
      let kept : (k : ChunkName)
          → Other date hour k
          → find_chunk k m₃.chunks ≡ find_chunk k m₁.chunks =
        λ k other. others k other ∙ ap (find_chunk k) same in
      elim last [
        | inl log₃ ↦ (m₃, done, [], es ++ e ∷ [], ran, refl, log₃, inl refl, kept)
        | inr (empty, name, chunk) ↦ (
          m₃,
          done,
          es ++ e ∷ [],
          [],
          ran,
          sym (append-nil (es ++ e ∷ [])),
          empty,
          inr (name, chunk),
          kept,
        )
      ]

  -- add_snapshot_at ends and does not panic on a log that was written entry by entry and is counted so,
  -- where the new entry serializes within the size limit, the writes and the sync of its frame do not
  -- fail, and the syncs of an emptied log do not fail; whether wal.log can be read or cut and a chunk be
  -- written does not matter. The entries of the log and the new one are then, in order, what one chunk
  -- was made of, what a second was made of, and the log; the log is counted again.
  pub add_conserves :
      (machine₁ machine₂ : Machine) (snapshot : Snapshot) (date hour : ℕ)
      (interner : StringInterner) (m : StorageManager) (es : List WalEntry) (encoded : Bytes)
      → machine₁.sync_fails ≡ false
      → machine₂.sync_fails ≡ false
      → IsLog crc32 wal_postcard zstd snapshot_postcard interner_postcard m es
      → Payload crc32 wal_postcard (wal_entry snapshot interner) encoded
      → (after : StorageManager) × (flushed : Bool) × (first : List WalEntry) × (second : List
          WalEntry)
        × (rest : List WalEntry) × (add_snapshot_at crc32 wal_postcard zstd snapshot_postcard
              interner_postcard machine₁ no_append_faults machine₂ snapshot date hour interner m
            ≡ some (ok (after, flushed)))
        × (es ++ wal_entry snapshot interner ∷ [] ≡ first ++ (second ++ rest))
        × InChunks crc32 wal_postcard zstd snapshot_postcard interner_postcard after first
        × InChunks crc32 wal_postcard zstd snapshot_postcard interner_postcard after second
        × IsLog crc32 wal_postcard zstd snapshot_postcard interner_postcard after rest
  add_conserves machine₁ machine₂ snapshot date hour interner m es encoded syncs₁ syncs₂ log p =
      let (m₁, flushed, began, split) =
        last_hour-IsLog crc32 wal_postcard zstd snapshot_postcard interner_postcard machine₁ date
          hour m es syncs₁ log in
      elim split [
        | inl log₁ ↦
            let (after, done, past, rest, ran, parts, log₃, chunk, _) =
              Behind-first machine₁ machine₂ snapshot date hour interner m m₁ flushed es encoded
                syncs₂ p began log₁ in
            (after, done, [], past, rest, ran, parts, inl refl, chunk, log₃)
        | inr (empty, name, (bytes, file, written, made, found), other) ↦
            let (after, done, past, rest, ran, parts, log₃, chunk, kept) =
              Behind-first machine₁ machine₂ snapshot date hour interner m m₁ flushed [] encoded
                syncs₂ p began empty in
            (
              after,
              done,
              es,
              past,
              rest,
              ran,
              ap (λ l. es ++ l) parts,
              inr (name, (bytes, file, written, made, kept name other ∙ found)),
              chunk,
              log₃,
            )
      ]
