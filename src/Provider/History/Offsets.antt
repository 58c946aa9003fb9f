-- ===== src/Provider/History/Offsets.antt =====
-- The index that build_index makes, and the one that refresh makes of it.
use rpglot.Prelude.{
  ℕ, zero, suc, ◌+◌, ◌-◌, true, false, List, [], ◌∷◌, ◌≡◌, refl, sym, ap, ◌∙◌, subst, arith, String,
  length, length-append, length-map, map, ◌==◌, Bool-cases, inl, inr,
}
use rpglot.Prelude.Int.{ℤ}
use rpglot.Prelude.Bytes.{Bytes}
use rpglot.Prelude.Result.{Result, ok, ◌>>=◌, >>=-eq-ok, ok_injective, Result-cases}
use rpglot.Storage.External.{Postcard, Crc32}
use rpglot.Storage.Wal.{WalEntry}
use rpglot.Storage.Chunk.Read.{ChunkMetadata, read_chunk_metadata, timestamps_loop}
use rpglot.Provider.History.{
  ProviderError, ChunkMeta, HistoryProvider, Disk, BuiltIndex, insert_time, sort_times, sort_paths,
  scan_chunks, count_all, times_all, wal_index, wal_len, scan_wal, index_listed, build_index,
  initialize, ensure_initialized, meta_at,
}
use rpglot.Provider.History.Sorted.{IsSorted, sort-IsSorted}
use rpglot.Provider.History.Index.{IsIndexed, WalBehind, IsIndex, wal_count}

length-timestamps_loop : (buf : Bytes) (n i : ℕ) → length (timestamps_loop buf n i) ≡ n
unfolding timestamps_loop
length-timestamps_loop buf zero i = refl
length-timestamps_loop buf (suc n) i = ap suc (length-timestamps_loop buf n (suc i))

-- The metadata of a file has a timestamp for each snapshot.
pub metadata_times :
    (bytes : Bytes) (meta : ChunkMetadata)
    → read_chunk_metadata bytes ≡ ok meta
    → length meta.timestamps ≡ meta.snapshot_count
unfolding read_chunk_metadata
metadata_times bytes meta h = grind (arith, length-timestamps_loop)

length-insert_time : (t : ℤ) (times : List ℤ) → length (insert_time t times) ≡ suc (length times)
unfolding insert_time
length-insert_time t [] = refl
length-insert_time t (u ∷ times) = ground (arith, length-insert_time t times)

pub length-sort_times : (times : List ℤ) → length (sort_times times) ≡ length times
unfolding sort_times
length-sort_times [] = refl
length-sort_times (t ∷ times) =
    length-insert_time t (sort_times times) ∙ ap suc (length-sort_times times)

-- What the scan of the files gives.
abbrev pub HasTimes : List ChunkMeta → Type 0
HasTimes [] = Unit
HasTimes (c ∷ chunks) = (length c.timestamps ≡ c.snapshot_count) × HasTimes chunks

scan_chunks-IsIndexed :
    (paths : List (String × Bytes)) (start : ℕ) (chunks : List ChunkMeta)
    → scan_chunks paths start ≡ ok chunks
    → IsIndexed chunks start × HasTimes chunks
unfolding scan_chunks
scan_chunks-IsIndexed [] start chunks h =
    let none_made : [] ≡ chunks = cc h in
    subst (λ l. IsIndexed l start × HasTimes l) none_made (tt, tt)
scan_chunks-IsIndexed ((path, bytes) ∷ paths) start chunks h =
    elim (Result-cases (read_chunk_metadata bytes)) [
      | inr (e, bad) ↦ absurd (ground (arith, bad))
      | inl (meta, good) ↦ elim (Bool-cases (meta.snapshot_count == 0)) [
        | inl empty ↦
            scan_chunks-IsIndexed paths start chunks (sym (ground (arith, good, empty)) ∙ h)
        | inr full ↦
            let next : scan_chunks paths (start + meta.snapshot_count)
                  >>= (λ rest. ok (meta_at path start meta ∷ rest))
                ≡ ok chunks =
              sym (ground (arith, good, full)) ∙ h in
            let (rest, scanned, made) =
              >>=-eq-ok (scan_chunks paths (start + meta.snapshot_count)) _ next in
            let cons : meta_at path start meta ∷ rest ≡ chunks = cc made in
            let ih = scan_chunks-IsIndexed paths (start + meta.snapshot_count) rest scanned in
            subst (λ l. IsIndexed l start × HasTimes l) cons
              ((refl, ground arith, ih.0), (metadata_times bytes meta good, ih.1))
      ]
    ]

pub length-times_all :
    (chunks : List ChunkMeta) → HasTimes chunks → length (times_all chunks) ≡ count_all chunks
unfolding times_all count_all
length-times_all [] h = refl
length-times_all (c ∷ chunks) (here, rest) =
    omega (arith, length-append c.timestamps (times_all chunks), length-times_all chunks rest)

pub wal_index-WalBehind :
    (entries : List (ℕ × ℕ × ℤ)) (start : ℕ)
    → WalBehind (wal_index entries start) start
      × (wal_count (wal_index entries start) ≡ length entries)
unfolding wal_index wal_len
wal_index-WalBehind [] start = (tt, refl)
wal_index-WalBehind (e ∷ entries) start = (refl, ap suc (length-map _ entries))

module _ (crc32 : Crc32) (postcard : Postcard WalEntry) where
  abbrev Parts : BuiltIndex → Type 0
  Parts b =
      IsIndexed b.built_chunks 0
      × WalBehind b.built_wal (count_all b.built_chunks)
      × (b.built_total ≡ count_all b.built_chunks + wal_count b.built_wal)
      × (length b.built_timestamps ≡ b.built_total)
      × IsSorted b.built_timestamps

  listed-Parts :
      (disk : Disk) (built : BuiltIndex) → index_listed crc32 postcard disk ≡ ok built → Parts built
  unfolding index_listed
  listed-Parts disk built h =
      let (chunks, scanned, h₁) = >>=-eq-ok (scan_chunks (sort_paths disk.chunk_files) 0) _ h in
      let (entries, walked, h₂) = >>=-eq-ok (scan_wal crc32 postcard disk) _ h₁ in
      let indexed = scan_chunks-IsIndexed (sort_paths disk.chunk_files) 0 chunks scanned in
      let wal = wal_index-WalBehind entries (count_all chunks) in
      subst Parts (ok_injective h₂) (
        indexed.0,
        wal.0,
        omega (arith, wal.1),
        length-sort_times _
            ∙ omega (
              arith,
              length-append (times_all chunks) (map (λ (e : ℕ × ℕ × ℤ). e.2) entries),
              length-times_all chunks (indexed.1),
              length-map (λ (e : ℕ × ℕ × ℤ). e.2) entries,
            ),
        sort-IsSorted _,
      )

  build-Parts :
      (disk : Disk) (built : BuiltIndex) → build_index crc32 postcard disk ≡ ok built → Parts built
  unfolding build_index
  build-Parts disk built h = elim (Bool-cases (disk.readable)) [
    | inr unreadable ↦ absurd (ground (arith, unreadable))
    | inl readable ↦ listed-Parts disk built (sym (ground (arith, readable)) ∙ h)
  ]

  -- A provider that is initialized from the disk has a well-formed index: chunk after chunk and then the
  -- log, a timestamp for each snapshot in sorted order, and the cursor on the last.
  pub initialized-IsIndex :
      (disk : Disk) (lazy p : HistoryProvider)
      → lazy.initialized ≡ false
      → ensure_initialized crc32 postcard disk lazy ≡ ok p
      → IsIndex p
        × (length p.timestamps ≡ p.total_snapshots)
        × IsSorted p.timestamps
        × (suc p.cursor ≡ p.total_snapshots)
  unfolding ensure_initialized initialize
  initialized-IsIndex disk lazy p fresh h =
      let (built, made, h₁) =
        >>=-eq-ok (build_index crc32 postcard disk) (initialize crc32 postcard lazy)
          (sym (ground (arith, fresh)) ∙ h) in
      let (chunks, wal, total, times, sorted) = build-Parts disk built made in
      elim (Bool-cases (built.built_total == 0)) [
        | inl empty ↦ absurd (ground (arith, empty, h₁))
        | inr some_snapshots ↦
            let q : HistoryProvider = record lazy {
              chunks = built.built_chunks;
              wal = built.built_wal;
              total_snapshots = built.built_total;
              timestamps = built.built_timestamps;
              cursor = built.built_total - 1;
              initialized = true;
            } in
            let same : ◌≡◌ {A = Result ProviderError HistoryProvider} (ok q) (ok p) =
              ground (arith, some_snapshots, h₁) in
            subst
              (λ q.
                IsIndex q
                × (length q.timestamps ≡ q.total_snapshots)
                × IsSorted q.timestamps
                × (suc q.cursor ≡ q.total_snapshots))
              (ok_injective same) ((chunks, wal, total), times, sorted, ground arith)
      ]
