-- ===== src/Provider/History/Walk.antt =====
-- Walking over the snapshots.
use rpglot.Prelude.{ℕ, zero, suc, ◌+◌, ◌-◌, ◌<◌, ◌≡◌, refl, ◌∙◌, arith}
use rpglot.Model.Snapshot.{Snapshot}
use rpglot.Storage.External.{Postcard, Crc32, Zstd}
use rpglot.Storage.Interner.{StringInterner}
use rpglot.Storage.Wal.{WalEntry}
use rpglot.Provider.History.{HistoryProvider, Disk}
use rpglot.Provider.History.Navigate.{advance, rewind}
use rpglot.Provider.History.Cursor.{IsPlaced, step_cursor}

-- So many steps of one kind.
abbrev pub steps : (HistoryProvider → HistoryProvider) → ℕ → HistoryProvider → HistoryProvider
steps step zero p = p
steps step (suc n) p = steps step n (step p)

module _ (crc32 : Crc32) (wal_postcard : Postcard WalEntry) (zstd : Zstd)
    (snapshot_postcard : Postcard Snapshot) (interner_postcard : Postcard StringInterner)
    (disk : Disk) where
  rewinds :
      (p : HistoryProvider) (n : ℕ)
      → IsPlaced p
      → let q =
          steps (rewind crc32 wal_postcard zstd snapshot_postcard interner_postcard disk) n p in
        IsPlaced q × (q.cursor ≡ p.cursor - n) × (q.total_snapshots ≡ p.total_snapshots)
  rewinds p zero placed = (placed, omega arith, refl)
  rewinds p (suc n) placed =
      let step = rewind crc32 wal_postcard zstd snapshot_postcard interner_postcard disk p in
      let (kept, back, same) =
        (step_cursor crc32 wal_postcard zstd snapshot_postcard interner_postcard disk p placed).1 in
      let (placed₁, cursor, total) = rewinds step n kept in
      (placed₁, omega (arith, back, cursor), total ∙ same)

  advances :
      (p : HistoryProvider) (n : ℕ)
      → IsPlaced p
      → p.cursor + n < p.total_snapshots
      → let q =
          steps (advance crc32 wal_postcard zstd snapshot_postcard interner_postcard disk) n p in
        IsPlaced q × (q.cursor ≡ p.cursor + n) × (q.total_snapshots ≡ p.total_snapshots)
  advances p zero placed room = (placed, omega arith, refl)
  advances p (suc n) placed room =
      let step = advance crc32 wal_postcard zstd snapshot_postcard interner_postcard disk p in
      let (kept, next, same) =
        (step_cursor crc32 wal_postcard zstd snapshot_postcard interner_postcard disk p placed).0 in
      let here : step.cursor ≡ suc p.cursor = ground (arith, next) in
      let (placed₁, cursor, total) = advances step n kept (omega (arith, here, same)) in
      (placed₁, omega (arith, here, cursor), total ∙ same)

  -- Every position of a well-formed index is reached from every other: by as many steps back as lead to
  -- the first, and from there as many forward as its number.
  pub walk_reaches :
      (p : HistoryProvider) (n : ℕ)
      → IsPlaced p
      → n < p.total_snapshots
      → let first =
          steps
            (rewind crc32 wal_postcard zstd snapshot_postcard interner_postcard disk)
            p.cursor
            p in
        let q =
          steps
            (advance crc32 wal_postcard zstd snapshot_postcard interner_postcard disk)
            n
            first in
        (first.cursor ≡ 0) × (q.cursor ≡ n) × IsPlaced q
  walk_reaches p n placed inside =
      let (placed₁, cursor, total) = rewinds p p.cursor placed in
      let first =
        steps (rewind crc32 wal_postcard zstd snapshot_postcard interner_postcard disk) p.cursor
          p in
      let (placed₂, there, _) = advances first n placed₁ (omega (arith, cursor, total)) in
      (omega (arith, cursor), omega (arith, cursor, there), placed₂)
