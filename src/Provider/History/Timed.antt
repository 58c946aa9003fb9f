-- ===== src/Provider/History/Timed.antt =====
-- A jump to a time, where the snapshots are in the order of their times.
use rpglot.Prelude.{
  sym, ap, false, some, leb, ◌==◌, Bool-cases, get_elem?-inside, Option, none, inl, inr,
  Option-cases, refl, ◌∙◌, arith, ℕ, suc, ◌≤◌, ◌<◌, ◌≡◌, ◌↔◌, length, get_elem?,
}
use mathlib.Core.Option
use rpglot.Prelude.Result.{Result-cases}
use rpglot.Prelude.Int.{ltb_ℤ, ℤ, ◌≤ℤ◌, ◌<ℤ◌}
use rpglot.Model.Snapshot.{Snapshot}
use rpglot.Storage.External.{Postcard, Crc32, Zstd}
use rpglot.Storage.Interner.{StringInterner}
use rpglot.Storage.Wal.{WalEntry, load_wal_snapshot_at}
use rpglot.Provider.History.{
  HistoryProvider, Disk, WalSource, file, in_memory, SnapshotLocation, WalIndex, chunk,
  wal_entry_at, resolve_position,
}
use rpglot.Provider.History.Index.{IsIndex}
use rpglot.Provider.History.Load.{
  snapshot_at, load_from_chunk, load_snapshot, load_snapshot_with_interner, load_entry, buffered,
  load_into_buffer, buffer_location, buffer_wal, buffer_chunk,
}
use rpglot.Provider.History.Navigate.{
  partition_point, move_to, jump_to_timestamp_floor, jump_to_timestamp_ceil,
}
use rpglot.Provider.History.Sorted.{IsSorted}
use rpglot.Provider.History.Cursor.{moved, IsPlaced, floor_splits, ceil_splits}

module _ (crc32 : Crc32) (wal_postcard : Postcard WalEntry) (zstd : Zstd)
    (snapshot_postcard : Postcard Snapshot) (interner_postcard : Postcard StringInterner)
    (disk : Disk) where
  buffered-first :
      (loaded : Option (Snapshot × StringInterner)) (p : HistoryProvider)
      → (buffered crc32 wal_postcard zstd snapshot_postcard interner_postcard disk loaded
          p).current_buffer
        ≡ Option.map (λ r. r.0) loaded
  buffered-first none p = refl
  buffered-first (some loaded) p = refl

  load_snapshot-first :
      (source : WalSource) (idx : ℕ)
      → Option.map
          (λ r. r.0)
          (load_snapshot_with_interner crc32 wal_postcard zstd snapshot_postcard interner_postcard
            disk source idx)
        ≡ load_snapshot crc32 wal_postcard zstd snapshot_postcard interner_postcard disk source idx
  unfolding load_snapshot load_snapshot_with_interner load_entry load_wal_snapshot_at
  load_snapshot-first (file entries) idx = ground arith
  load_snapshot-first (in_memory snapshots) idx = ground arith

  buffer_wal-first :
      (w : WalIndex) (idx : ℕ) (p : HistoryProvider)
      → (buffer_wal crc32 wal_postcard zstd snapshot_postcard interner_postcard disk
          (some w)
          idx
          p).current_buffer
        ≡ load_snapshot crc32 wal_postcard zstd snapshot_postcard interner_postcard disk w.source
            idx
  unfolding buffer_wal
  buffer_wal-first w idx p = buffered-first _ p ∙ load_snapshot-first w.source idx

  resolve-moved :
      (position : ℕ) (p : HistoryProvider)
      → resolve_position (record p { cursor = position }) position ≡ resolve_position p position
  unfolding resolve_position
  resolve-moved position p = refl

  -- The buffer has, behind a load, what snapshot_at reads at the position.
  buffer_location-first :
      (place : Option SnapshotLocation) (position : ℕ) (p q : HistoryProvider)
      → resolve_position p position ≡ place
      → q.wal ≡ p.wal
      → q.chunks ≡ p.chunks
      → q.interner_cache ≡ p.interner_cache
      → (buffer_location crc32 wal_postcard zstd snapshot_postcard interner_postcard disk place
          q).current_buffer
        ≡ (snapshot_at crc32 wal_postcard zstd snapshot_postcard interner_postcard disk position
            p).1
  unfolding buffer_location buffer_wal buffer_chunk snapshot_at
  buffer_location-first none position p q at wal chunks cache = ground (arith, at)
  buffer_location-first (some (wal_entry_at idx)) position p q at wal chunks cache =
      elim (Option-cases (p.wal)) [
        | inl missing ↦ ground (arith, at, wal, missing)
        | inr (w, log) ↦ ground (arith, at, wal, log, buffer_wal-first w idx q)
      ]
  buffer_location-first (some (chunk idx offset)) position p q at wal chunks cache =
      elim (Result-cases (
        load_from_chunk crc32 wal_postcard zstd snapshot_postcard interner_postcard disk
          p.interner_cache p.chunks idx offset)) [
            | inl (((s, strings), kept), found) ↦ ground (arith, at, chunks, cache, found)
            | inr (e, failed) ↦ ground (arith, at, chunks, cache, failed)
          ]

  -- A move shows what snapshot_at reads at the cursor.
  moved_shows :
      (position : ℕ) (p : HistoryProvider)
      → IsIndex p
      → let q =
          move_to crc32 wal_postcard zstd snapshot_postcard interner_postcard disk position p in
        q.current_buffer
        ≡ (snapshot_at crc32 wal_postcard zstd snapshot_postcard interner_postcard disk q.cursor
            p).1
  unfolding move_to load_into_buffer
  moved_shows position p index =
      let (c, _, _, _) =
        moved crc32 wal_postcard zstd snapshot_postcard interner_postcard disk position p index in
      buffer_location-first _ position p (record p { cursor = position })
        (sym (resolve-moved position p)) refl refl refl
      ∙ ap
          (λ i.
            (snapshot_at crc32 wal_postcard zstd snapshot_postcard interner_postcard disk i p).1)
          (sym c)

  floor_shows :
      (p : HistoryProvider) (target : ℤ)
      → IsIndex p
      → 0 < length p.timestamps
      → let (q, shown) =
          jump_to_timestamp_floor crc32 wal_postcard zstd snapshot_postcard interner_postcard disk
            target p in
        shown
        ≡ (snapshot_at crc32 wal_postcard zstd snapshot_postcard interner_postcard disk q.cursor
            p).1
  unfolding jump_to_timestamp_floor
  floor_shows p target index some_times =
      let here : (length p.timestamps == 0) ≡ false = ground arith in
      rw here (moved_shows _ p index)

  ceil_shows :
      (p : HistoryProvider) (target : ℤ)
      → IsIndex p
      → 0 < length p.timestamps
      → let (q, shown) =
          jump_to_timestamp_ceil crc32 wal_postcard zstd snapshot_postcard interner_postcard disk
            target p in
        shown
        ≡ (snapshot_at crc32 wal_postcard zstd snapshot_postcard interner_postcard disk q.cursor
            p).1
  unfolding jump_to_timestamp_ceil
  ceil_shows p target index some_times =
      let here : (length p.timestamps == 0) ≡ false = ground arith in
      elim (Bool-cases
        (leb (length p.timestamps) (partition_point (λ t. ltb_ℤ t target) p.timestamps))) [
          | inl past ↦ rw (here, past) (moved_shows _ p index)
          | inr found ↦ rw (here, found) (moved_shows _ p index)
        ]

  -- The snapshot that snapshot_at reads at a position.
  abbrev pub Reads : HistoryProvider → ℕ → Snapshot → Type 0
  Reads p i s =
      (snapshot_at crc32 wal_postcard zstd snapshot_postcard interner_postcard disk i p).1 ≡ some s

  -- The sorted timestamps are those of the snapshots, position by position: the chunks and the log
  -- follow each other in time.
  abbrev pub IsAligned : HistoryProvider → Type 0
  IsAligned p =
      IsSorted p.timestamps
      × (length p.timestamps ≡ p.total_snapshots)
      × ((i : ℕ) (s : Snapshot) → Reads p i s → get_elem? p.timestamps i ≡ some s.timestamp)

  -- On a well-formed index whose sorted timestamps are those of the snapshots at the positions, where
  -- a snapshot can be read behind the first position: a jump to the floor of a time leaves the cursor
  -- on a position of the index and returns the snapshot that snapshot_at reads there. The snapshot
  -- behind the first position is at or before the cursor exactly where its own time is at most the
  -- time.
  pub floor_finds :
      (p : HistoryProvider) (target : ℤ) (s : Snapshot) (i : ℕ)
      → IsIndex p
      → IsAligned p
      → Reads p (suc i) s
      → let (q, shown) =
          jump_to_timestamp_floor crc32 wal_postcard zstd snapshot_postcard interner_postcard disk
            target p in
        IsPlaced q
        × (shown
            ≡ (snapshot_at crc32 wal_postcard zstd snapshot_postcard interner_postcard disk q.cursor
                p).1)
        × ((suc i ≤ q.cursor) ↔ (s.timestamp ≤ℤ target))
  floor_finds p target s i index (sorted, times, aligned) read =
      let (placed, splits) =
        floor_splits crc32 wal_postcard zstd snapshot_postcard interner_postcard disk p target
          s.timestamp i index sorted times (aligned (suc i) s read) in
      (
        placed,
        floor_shows p target index (
            omega
              (arith, get_elem?-inside p.timestamps (suc i) s.timestamp (aligned (suc i) s read))),
        splits,
      )

  -- On a well-formed index whose sorted timestamps are those of the snapshots at the positions, where
  -- a snapshot can be read before the last position: a jump to the ceiling of a time leaves the
  -- cursor on a position of the index and returns the snapshot that snapshot_at reads there. The
  -- snapshot before the last position is before the cursor exactly where its own time is below the
  -- time.
  pub ceil_finds :
      (p : HistoryProvider) (target : ℤ) (s : Snapshot) (i : ℕ)
      → IsIndex p
      → IsAligned p
      → Reads p i s
      → suc i < p.total_snapshots
      → let (q, shown) =
          jump_to_timestamp_ceil crc32 wal_postcard zstd snapshot_postcard interner_postcard disk
            target p in
        IsPlaced q
        × (shown
            ≡ (snapshot_at crc32 wal_postcard zstd snapshot_postcard interner_postcard disk q.cursor
                p).1)
        × ((i < q.cursor) ↔ (s.timestamp <ℤ target))
  ceil_finds p target s i index (sorted, times, aligned) read before =
      let (placed, splits) =
        ceil_splits crc32 wal_postcard zstd snapshot_postcard interner_postcard disk p target
          s.timestamp i index sorted times (aligned i s read) before in
      (placed, ceil_shows p target index (omega (arith, times, before)), splits)
