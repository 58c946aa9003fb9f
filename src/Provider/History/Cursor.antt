-- ===== src/Provider/History/Cursor.antt =====
-- The cursor stays in the index.
use rpglot.Prelude.{
  ℕ, zero, suc, ◌+◌, ◌-◌, ◌≤◌, ◌<◌, false, Option, some, none, List, [], ◌∷◌, ◌≡◌, refl, sym, ap,
  subst, arith, length, get_elem?, get_elem?-inside, ◌↔◌, ltb, leb, ◌==◌, Bool-cases, inl, inr,
}
use rpglot.Prelude.Int.{ℤ, ◌≤ℤ◌, ◌<ℤ◌, leb_ℤ, ltb_ℤ}
use rpglot.Prelude.Result.{Result, ok, err}
use rpglot.Model.Snapshot.{Snapshot}
use rpglot.Storage.External.{Postcard, Crc32, Zstd}
use rpglot.Storage.Interner.{StringInterner}
use rpglot.Storage.Wal.{WalEntry}
use rpglot.Provider.History.{
  ProviderError, CachedInterner, ChunkMeta, WalIndex, HistoryProvider, Disk, SnapshotLocation,
  chunk, wal_entry_at, count_all,
}
use rpglot.Provider.History.Index.{IsIndexed, IsIndex, WalBehind}
use rpglot.Provider.History.Load.{
  set_unavailable, buffered, buffer_wal, buffer_chunk, buffer_location, load_into_buffer,
}
use rpglot.Provider.History.Navigate.{
  partition_point, at_last, move_to, advance, rewind, jump_to_timestamp_floor,
  jump_to_timestamp_ceil,
}
use rpglot.Provider.History.Sorted.{IsSorted, partition_le, partition_lt, partition_le_length}

set_unavailable-IsIndexed :
    (i : ℕ) (chunks : List ChunkMeta) (start : ℕ)
    → IsIndexed chunks start
    → IsIndexed (set_unavailable i chunks) start
      × (count_all (set_unavailable i chunks) ≡ count_all chunks)
unfolding set_unavailable count_all
set_unavailable-IsIndexed i [] start h = (tt, refl)
set_unavailable-IsIndexed zero (c ∷ chunks) start h = (h, refl)
set_unavailable-IsIndexed (suc i) (c ∷ chunks) start (at, full, h) =
    let (j, count) = set_unavailable-IsIndexed i chunks (start + c.snapshot_count) h in
    ((at, full, j), ap (λ n. c.snapshot_count + n) count)

-- What a load leaves as it was, with the index well-formed.
abbrev pub Kept : HistoryProvider → HistoryProvider → Type 0
Kept p q =
    (q.cursor ≡ p.cursor)
    × (q.total_snapshots ≡ p.total_snapshots)
    × (q.timestamps ≡ p.timestamps)
    × IsIndex q

-- The cursor is on a snapshot of a well-formed index.
abbrev pub IsPlaced : HistoryProvider → Type 0
IsPlaced p = IsIndex p × (p.cursor < p.total_snapshots)

module _ (crc32 : Crc32) (wal_postcard : Postcard WalEntry) (zstd : Zstd)
    (snapshot_postcard : Postcard Snapshot) (interner_postcard : Postcard StringInterner)
    (disk : Disk) where
  buffered-Kept :
      (loaded : Option (Snapshot × StringInterner)) (p : HistoryProvider)
      → IsIndex p
      → Kept p (buffered crc32 wal_postcard zstd snapshot_postcard interner_postcard disk loaded p)
  buffered-Kept none p i = (refl, refl, refl, i)
  buffered-Kept (some (s, strings)) p i = (refl, refl, refl, i)

  buffer_wal-Kept :
      (wal : Option WalIndex) (idx : ℕ) (p : HistoryProvider)
      → IsIndex p
      → Kept p
          (buffer_wal crc32 wal_postcard zstd snapshot_postcard interner_postcard disk wal idx p)
  unfolding buffer_wal
  buffer_wal-Kept none idx p i = (refl, refl, refl, i)
  buffer_wal-Kept (some w) idx p i = buffered-Kept _ p i

  buffer_chunk-Kept :
      (idx : ℕ)
      (loaded : Result ProviderError ((Snapshot × StringInterner) × Option CachedInterner))
      (p : HistoryProvider)
      → IsIndex p
      → Kept p (
          buffer_chunk crc32 wal_postcard zstd snapshot_postcard interner_postcard disk idx loaded
            p)
  unfolding buffer_chunk
  buffer_chunk-Kept idx (ok ((s, strings), cache)) p i = (refl, refl, refl, i)
  buffer_chunk-Kept idx (err e) p (i, wal, total) =
      let (j, count) = set_unavailable-IsIndexed idx p.chunks 0 i in
      (refl, refl, refl, (j, subst (WalBehind p.wal) (sym count) wal, omega (arith, total, count)))

  buffer_location-Kept :
      (place : Option SnapshotLocation) (p : HistoryProvider)
      → IsIndex p
      → Kept p
          (buffer_location crc32 wal_postcard zstd snapshot_postcard interner_postcard disk place p)
  unfolding buffer_location
  buffer_location-Kept none p i = (refl, refl, refl, i)
  buffer_location-Kept (some (wal_entry_at idx)) p i = buffer_wal-Kept p.wal idx p i
  buffer_location-Kept (some (chunk idx offset)) p i = buffer_chunk-Kept idx _ p i

  -- A move sets the cursor and keeps the index.
  pub moved :
      (position : ℕ) (p : HistoryProvider)
      → IsIndex p
      → Kept
          (record p { cursor = position })
          (move_to crc32 wal_postcard zstd snapshot_postcard interner_postcard disk position p)
  unfolding move_to load_into_buffer
  moved position p i = buffer_location-Kept _ (record p { cursor = position }) i

  advance_cursor :
      (p : HistoryProvider)
      → IsPlaced p
      → let q = advance crc32 wal_postcard zstd snapshot_postcard interner_postcard disk p in
        IsPlaced q
        × (q.cursor ≡ at_last (suc p.cursor) (p.total_snapshots - 1))
        × (q.total_snapshots ≡ p.total_snapshots)
  unfolding advance
  advance_cursor p (i, inside) =
      let (c, t, _, j) = moved (p.cursor + 1) (record p { last_error = none }) i in
      elim (Bool-cases (ltb (p.cursor + 1) p.total_snapshots)) [
        | inl up ↦ rw up ((j, ground (arith, c, t)), ground (arith, c), t)
        | inr top ↦ rw top ((i, inside), ground arith, refl)
      ]

  rewind_cursor :
      (p : HistoryProvider)
      → IsPlaced p
      → let q = rewind crc32 wal_postcard zstd snapshot_postcard interner_postcard disk p in
        IsPlaced q × (q.cursor ≡ p.cursor - 1) × (q.total_snapshots ≡ p.total_snapshots)
  unfolding rewind
  rewind_cursor p (i, inside) =
      let (c, t, _, j) = moved (p.cursor - 1) (record p { last_error = none }) i in
      elim (Bool-cases (ltb 0 p.cursor)) [
        | inl down ↦ rw down ((j, ground (arith, c, t)), ground (arith, c), t)
        | inr first ↦ rw first ((i, inside), ground arith, refl)
      ]

  -- From a cursor on a snapshot of a well-formed index, advance goes to the next position and stays on
  -- the last, rewind goes one back and stays on the first, and both leave the cursor on a snapshot of a
  -- well-formed index of the same size.
  pub step_cursor :
      (p : HistoryProvider)
      → IsPlaced p
      → let q = advance crc32 wal_postcard zstd snapshot_postcard interner_postcard disk p in
        let r = rewind crc32 wal_postcard zstd snapshot_postcard interner_postcard disk p in
        (IsPlaced q
          × (q.cursor ≡ at_last (suc p.cursor) (p.total_snapshots - 1))
          × (q.total_snapshots ≡ p.total_snapshots))
        × (IsPlaced r × (r.cursor ≡ p.cursor - 1) × (r.total_snapshots ≡ p.total_snapshots))
  step_cursor p placed = (advance_cursor p placed, rewind_cursor p placed)

  -- The floor of a time, by the list of sorted timestamps.
  pub floor_splits :
      (p : HistoryProvider) (target t : ℤ) (i : ℕ)
      → IsIndex p
      → IsSorted p.timestamps
      → length p.timestamps ≡ p.total_snapshots
      → get_elem? p.timestamps (suc i) ≡ some t
      → let q =
          (jump_to_timestamp_floor crc32 wal_postcard zstd snapshot_postcard interner_postcard disk
            target p).0 in
        IsPlaced q × ((suc i ≤ q.cursor) ↔ (t ≤ℤ target))
  unfolding jump_to_timestamp_floor
  floor_splits p target t i index sorted times at =
      let found = partition_point (λ u. leb_ℤ u target) p.timestamps in
      let (c, total, _, j) = moved (at_last (found - 1) (p.total_snapshots - 1)) p index in
      let most = partition_le_length (λ u. leb_ℤ u target) p.timestamps in
      let room = get_elem?-inside p.timestamps (suc i) t at in
      let here : (length p.timestamps == 0) ≡ false = ground arith in
      rw here (
        (j, ground (arith, c, total)),
        ground (arith, c, partition_le target p.timestamps (suc i) t sorted at),
      )

  -- The ceiling of a time, by the list of sorted timestamps.
  pub ceil_splits :
      (p : HistoryProvider) (target t : ℤ) (i : ℕ)
      → IsIndex p
      → IsSorted p.timestamps
      → length p.timestamps ≡ p.total_snapshots
      → get_elem? p.timestamps i ≡ some t
      → suc i < p.total_snapshots
      → let q =
          (jump_to_timestamp_ceil crc32 wal_postcard zstd snapshot_postcard interner_postcard disk
            target p).0 in
        IsPlaced q × ((i < q.cursor) ↔ (t <ℤ target))
  unfolding jump_to_timestamp_ceil
  ceil_splits p target t i index sorted times at before =
      let idx = partition_point (λ u. ltb_ℤ u target) p.timestamps in
      let (c, total, _, j) = moved idx p index in
      let (d, same, _, k) = moved (p.total_snapshots - 1) p index in
      let here : (length p.timestamps == 0) ≡ false = ground arith in
      let splits = partition_lt target p.timestamps i t sorted at in
      elim (Bool-cases (leb (length p.timestamps) idx)) [
        | inl past ↦ rw (here, past) ((k, ground (arith, d, same)), ground (arith, d, splits))
        | inr found ↦ rw (here, found) ((j, ground (arith, c, total)), ground (arith, c, splits))
      ]
