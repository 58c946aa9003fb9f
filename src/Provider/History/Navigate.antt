-- ===== src/Provider/History/Navigate.antt =====
-- provider/history.rs: the cursor.
use rpglot.Prelude.{
  ℕ, suc, ◌+◌, ◌-◌, Bool, false, Option, none, List, [], ◌∷◌, get_elem?, length, ltb, leb, ◌==◌,
  if◌then◌else◌,
}
use rpglot.Prelude.Int.{ℤ, pos, ltb_ℤ, leb_ℤ}
use rpglot.Prelude.Result.{Result, ◌>>=◌, ok}
use rpglot.Model.Snapshot.{Snapshot}
use rpglot.Storage.External.{Postcard, Crc32, Zstd}
use rpglot.Storage.Interner.{StringInterner}
use rpglot.Storage.Wal.{WalEntry}
use rpglot.Provider.History.{
  ProviderError, HistoryProvider, Disk, from_path_lazy, ensure_initialized,
}
use rpglot.Provider.History.Load.{load_into_buffer}

-- `partition_point` of a test that the first timestamps pass: they are sorted.
unfoldable pub partition_point : (ℤ → Bool) → List ℤ → ℕ
partition_point test [] = 0
partition_point test (t ∷ times) =
    let rest = partition_point test times in if test t then suc rest else 0

abbrev pub at_last : ℕ → ℕ → ℕ
at_last i n = if ltb n i then n else i

unfoldable pub evict_buffers : HistoryProvider → HistoryProvider
evict_buffers p = record p { current_buffer = none; current_interner = none; interner_cache = none }

unfoldable pub evict_all : HistoryProvider → HistoryProvider
evict_all p = record p {
  current_buffer = none;
  current_interner = none;
  interner_cache = none;
  chunks = [];
  wal = none;
  timestamps = [];
  total_snapshots = 0;
  cursor = 0;
  initialized = false;
}

unfoldable pub current_timestamp : HistoryProvider → Option ℤ
current_timestamp p = get_elem? p.timestamps p.cursor

unfoldable pub prev_timestamp : HistoryProvider → Option ℤ
prev_timestamp p = if ltb 0 p.cursor then get_elem? p.timestamps (p.cursor - 1) else none

unfoldable pub next_timestamp : HistoryProvider → Option ℤ
next_timestamp p =
    if ltb (p.cursor + 1) p.total_snapshots then get_elem? p.timestamps (p.cursor + 1) else none

unfoldable pub last_time : List ℤ → ℤ
last_time [] = pos 0
last_time (t ∷ []) = t
last_time (t ∷ u ∷ times) = last_time (u ∷ times)

unfoldable pub first_time : List ℤ → ℤ
first_time [] = pos 0
first_time (t ∷ times) = t

unfoldable pub timestamp_range : HistoryProvider → ℤ × ℤ
timestamp_range p = (first_time p.timestamps, last_time p.timestamps)

unfoldable pub position_info : HistoryProvider → ℕ × ℕ
position_info p = (p.cursor + 1, p.total_snapshots)

module _ (crc32 : Crc32) (wal_postcard : Postcard WalEntry) (zstd : Zstd)
    (snapshot_postcard : Postcard Snapshot) (interner_postcard : Postcard StringInterner)
    (disk : Disk) where
  -- The cursor is set and the buffer loaded.
  unfoldable pub move_to : ℕ → HistoryProvider → HistoryProvider
  move_to position p =
      load_into_buffer crc32 wal_postcard zstd snapshot_postcard interner_postcard disk position
        (record p { cursor = position })

  -- The result of these is `current_buffer` of the new state, or what stands beside it.
  unfoldable pub jump_to : ℕ → HistoryProvider → HistoryProvider × Option Snapshot
  jump_to position p =
      if leb p.total_snapshots position
      then (p, none)
      else let after = move_to position p in (after, after.current_buffer)

  unfoldable pub advance : HistoryProvider → HistoryProvider
  advance p =
      let quiet = record p { last_error = none } in
      if ltb (p.cursor + 1) p.total_snapshots then move_to (p.cursor + 1) quiet else quiet

  unfoldable pub rewind : HistoryProvider → HistoryProvider
  rewind p =
      let quiet = record p { last_error = none } in
      if ltb 0 p.cursor then move_to (p.cursor - 1) quiet else quiet

  unfoldable pub jump_to_timestamp_floor : ℤ → HistoryProvider → HistoryProvider × Option Snapshot
  jump_to_timestamp_floor target_ts p =
      let idx = partition_point (λ t. leb_ℤ t target_ts) p.timestamps - 1 in
      let after = move_to (at_last idx (p.total_snapshots - 1)) p in
      if length p.timestamps == 0 then (p, none) else (after, after.current_buffer)

  unfoldable pub jump_to_timestamp_ceil : ℤ → HistoryProvider → HistoryProvider × Option Snapshot
  jump_to_timestamp_ceil target_ts p =
      let idx = partition_point (λ t. ltb_ℤ t target_ts) p.timestamps in
      let last = move_to (p.total_snapshots - 1) p in
      let after = move_to idx p in
      if length p.timestamps == 0
      then (p, none)
      else if leb (length p.timestamps) idx
      then (last, last.current_buffer)
      else (after, after.current_buffer)

  unfoldable pub from_path : Result ProviderError HistoryProvider
  from_path = do
    lazy ← from_path_lazy disk
    p ← ensure_initialized crc32 wal_postcard disk lazy
    ok (load_into_buffer crc32 wal_postcard zstd snapshot_postcard interner_postcard disk 0 p)

  unfoldable pub from_path_since : ℤ → Result ProviderError HistoryProvider
  from_path_since since_timestamp = do
    lazy ← from_path_lazy disk
    p ← ensure_initialized crc32 wal_postcard disk lazy
    let start_idx = partition_point (λ t. ltb_ℤ t since_timestamp) p.timestamps
    ok (if ltb start_idx p.total_snapshots then move_to start_idx p else p)
