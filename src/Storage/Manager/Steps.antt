-- ===== src/Storage/Manager/Steps.antt =====
-- What a flush does to the log and to the chunks.
use rpglot.Prelude.{
  ℕ, true, Option, none, some, List, [], ◌∷◌, ◌≡◌, sym, ap, ◌∙◌, subst, ◌⊎◌, inl, inr, refl, arith,
  Option-cases,
}
use rpglot.Prelude.Bytes.{Bytes}
use rpglot.Prelude.Result.{Result, ok, err, Result-cases}
use rpglot.Model.Snapshot.{Snapshot}
use rpglot.Storage.External.{Postcard, Crc32, Zstd}
use rpglot.Storage.Interner.{StringInterner}
use rpglot.Storage.Wal.{WalEntry}
use rpglot.Storage.Flush.{FlushError, chunk_of_wal}
use rpglot.Storage.Flush.Kept.{flush_ends}
use rpglot.Storage.Manager.{
  ChunkName, StorageManager, Machine, same_nanos, same_name, find_chunk, put_chunk, final_name,
  Outcome, empty_the_wal, save_chunk, flush_chunk_with_time,
}

same_nanos_refl : (n : Option ℕ) → same_nanos n n ≡ true
unfolding same_nanos
same_nanos_refl none = refl
same_nanos_refl (some n) = ground arith

same_name_refl : (n : ChunkName) → same_name n n ≡ true
unfolding same_name
same_name_refl n = ground (arith, same_nanos_refl n.nanos)

-- Names of one chunk agree in the date and the hour.
pub same_name-hour :
    (a b : ChunkName) → same_name a b ≡ true → (a.date ≡ b.date) × (a.hour ≡ b.hour)
unfolding same_name
same_name-hour a b h = ground arith

pub find-put :
    (name : ChunkName) (file : Bytes) (chunks : List (ChunkName × Bytes))
    → find_chunk name (put_chunk name file chunks) ≡ some file
unfolding find_chunk put_chunk
find-put name file [] = ground (arith, same_name_refl name)
find-put name file ((n, old) ∷ chunks) =
    ground (arith, same_name_refl name, find-put name file chunks)

abbrev pub name_for : Machine → ℕ → ℕ → StorageManager → ChunkName
name_for machine date hour m = final_name machine.now_nanos date hour m.chunks

-- The log is emptied only behind the chunk, and it is counted as it is unless the last call failed.
save_chunk-cases :
    (machine : Machine) (date hour : ℕ) (m : StorageManager) (file : Bytes)
    → (((save_chunk machine date hour m file).0.wal_file ≡ m.wal_file)
        × ((save_chunk machine date hour m file).0.wal_entries_count ≡ m.wal_entries_count))
      ⊎ (((save_chunk machine date hour m file).0.wal_file ≡ [])
          × ((save_chunk machine date hour m file).0.chunks
              ≡ put_chunk (name_for machine date hour m) file m.chunks)
          × ((machine.sync_fails ≡ true)
              ⊎ ((save_chunk machine date hour m file).0.wal_entries_count ≡ 0)))
unfolding save_chunk empty_the_wal
save_chunk-cases machine date hour m file = ground arith

module _ (crc32 : Crc32) (wal_postcard : Postcard WalEntry) (zstd : Zstd)
    (snapshot_postcard : Postcard Snapshot) (interner_postcard : Postcard StringInterner) where
  abbrev pub made_of : ℕ → Bytes → Option (Result FlushError Bytes)
  made_of = chunk_of_wal crc32 wal_postcard zstd snapshot_postcard interner_postcard

  abbrev pub flush : Machine → ℕ → ℕ → StorageManager → Option Outcome
  flush = flush_chunk_with_time crc32 wal_postcard zstd snapshot_postcard interner_postcard

  -- The chunk that the log of `m` becomes is among the chunks of `after`.
  abbrev pub Archived : StorageManager → StorageManager → Type 0
  Archived m after =
      (file : Bytes) × (name : ChunkName) × (made_of m.wal_entries_count m.wal_file
        ≡ some (ok file))
      × (find_chunk name after.chunks ≡ some file)

  abbrev pub Unchanged : StorageManager → StorageManager → Type 0
  Unchanged m after =
      (after.wal_file ≡ m.wal_file) × (after.wal_entries_count ≡ m.wal_entries_count)

  abbrev pub Emptied : Machine → ℕ → ℕ → StorageManager → StorageManager → Type 0
  Emptied machine date hour m after =
      (file : Bytes) × (made_of m.wal_entries_count m.wal_file ≡ some (ok file))
      × (after.wal_file ≡ [])
      × (after.chunks ≡ put_chunk (name_for machine date hour m) file m.chunks)
      × ((machine.sync_fails ≡ true) ⊎ (after.wal_entries_count ≡ 0))

  save_chunk-step :
      (machine : Machine) (date hour : ℕ) (m : StorageManager) (file : Bytes)
      → made_of m.wal_entries_count m.wal_file ≡ some (ok file)
      → Unchanged m (save_chunk machine date hour m file).0
        ⊎ Emptied machine date hour m (save_chunk machine date hour m file).0
  save_chunk-step machine date hour m file made = elim (save_chunk-cases machine date hour m file) [
    | inl same ↦ inl same
    | inr (log, chunks, count) ↦ inr (file, made, log, chunks, count)
  ]

  flush-made :
      (machine : Machine) (date hour : ℕ) (m after : StorageManager) (e : Option FlushError)
      (r : Result FlushError Bytes)
      → made_of m.wal_entries_count m.wal_file ≡ some r
      → flush machine date hour m ≡ some (after, e)
      → (after ≡ m)
        ⊎ ((file : Bytes) × (r ≡ ok file) × (after ≡ (save_chunk machine date hour m file).0))
  unfolding flush_chunk_with_time
  flush-made machine date hour m after e (ok file) made h =
      let found : (after ≡ m) ⊎ (after ≡ (save_chunk machine date hour m file).0) =
        ground (arith, made) in
      elim found [ inl same ↦ inl same | inr saved ↦ inr (file, refl, saved) ]
  flush-made machine date hour m after e (err x) made h = inl (ground (arith, made))

  -- A flush leaves the manager as it was, or saves the chunk that the log becomes.
  pub flush-saved :
      (machine : Machine) (date hour : ℕ) (m after : StorageManager) (e : Option FlushError)
      → flush machine date hour m ≡ some (after, e)
      → (after ≡ m)
        ⊎ ((file : Bytes) × (made_of m.wal_entries_count m.wal_file ≡ some (ok file))
            × (after ≡ (save_chunk machine date hour m file).0))
  flush-saved machine date hour m after e h =
      let (_, _, r, _, made, _) =
        flush_ends crc32 wal_postcard zstd snapshot_postcard interner_postcard m.wal_entries_count
          m.wal_file in
      elim (flush-made machine date hour m after e r made h) [
        | inl same ↦ inl same
        | inr (file, isok, saved) ↦ inr (file, made ∙ ap some isok, saved)
      ]

  pub flush-cases :
      (machine : Machine) (date hour : ℕ) (m after : StorageManager) (e : Option FlushError)
      → flush machine date hour m ≡ some (after, e)
      → Unchanged m after ⊎ Emptied machine date hour m after
  flush-cases machine date hour m after e h = elim (flush-saved machine date hour m after e h) [
    | inl same ↦ inl (rw same (refl, refl))
    | inr (file, made, saved) ↦
        subst (λ x. Unchanged m x ⊎ Emptied machine date hour m x) (sym saved)
          (save_chunk-step machine date hour m file made)
  ]

  pub flush_returns :
      (machine : Machine) (date hour : ℕ) (m : StorageManager)
      → (after : StorageManager) × (e : Option FlushError) × (flush machine date hour m
          ≡ some (after, e))
  unfolding flush_chunk_with_time
  flush_returns machine date hour m =
      let (_, _, r, _, made, _) =
        flush_ends crc32 wal_postcard zstd snapshot_postcard interner_postcard m.wal_entries_count
          m.wal_file in
      elim (Option-cases (flush machine date hour m)) [
        | inl nothing ↦ absurd (ground (arith, made, Result-cases r))
        | inr ((after, e), found) ↦ (after, e, found)
      ]

  -- A flush ends, whatever fails on the machine, and the log is emptied only where the chunk that it
  -- becomes is among the chunks: else it is as it was, and so is its count. A count that is left behind
  -- an emptied log is 0, unless the last call of the flush fails.
  pub flush_safe :
      (machine : Machine) (date hour : ℕ) (m : StorageManager)
      → (after : StorageManager) × (e : Option FlushError) × (flush_chunk_with_time crc32
            wal_postcard zstd snapshot_postcard interner_postcard machine date hour m
          ≡ some (after, e))
        × (((after.wal_file ≡ m.wal_file) × (after.wal_entries_count ≡ m.wal_entries_count))
            ⊎ ((after.wal_file ≡ [])
                × Archived m after
                × ((machine.sync_fails ≡ true) ⊎ (after.wal_entries_count ≡ 0))))
  flush_safe machine date hour m =
      let (after, e, found) = flush_returns machine date hour m in
      (
        after,
        e,
        found,
        elim (flush-cases machine date hour m after e found) [
          | inl same ↦ inl same
          | inr (file, made, log, chunks, count) ↦ inr (
            log,
            (
              file,
              name_for machine date hour m,
              made,
              ap (find_chunk (name_for machine date hour m)) chunks
                  ∙ find-put (name_for machine date hour m) file m.chunks,
            ),
            count,
          )
        ],
      )
