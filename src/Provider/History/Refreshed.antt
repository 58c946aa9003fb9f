-- ===== src/Provider/History/Refreshed.antt =====
-- What a refresh makes of the index and of the timestamps.
use rpglot.Prelude.{
  ℕ, ◌+◌, ◌-◌, ◌%◌, ◌^◌, List, [], ◌∷◌, ◌++◌, ◌≡◌, refl, ap, ◌∙◌, subst, arith, String, length,
  length-append, length-map, map, ◌==◌, if◌then◌else◌, Bool-cases, inl, inr,
}
use mathlib.Core.List.{Perm}
use rpglot.Prelude.Int.{ℤ}
use rpglot.Prelude.Sort.{keep_if}
use rpglot.Prelude.Bytes.{Bytes}
use rpglot.Prelude.Result.{Result, ok, ok_injective, Result-cases}
use rpglot.Storage.External.{Postcard, Crc32}
use rpglot.Storage.Wal.{WalEntry}
use rpglot.Storage.Chunk.Read.{read_chunk_metadata}
use rpglot.Provider.History.{
  ProviderError, ChunkMeta, HistoryProvider, Disk, sort_times, sort_paths, count_all, times_all,
  wal_index, scan_wal,
}
use rpglot.Provider.History.Sorted.{IsSorted, sort-IsSorted, sort_times-Perm}
use rpglot.Provider.History.Index.{IsIndexed, WalBehind, IsIndex}
use rpglot.Provider.History.Offsets.{
  HasTimes, metadata_times, length-times_all, length-sort_times, wal_index-WalBehind,
}
use rpglot.Provider.History.Refresh.{
  is_known, end_offset, new_chunks, mark_deleted, available_times, reindexed, refresh,
}

-- The snapshots of the chunks that are not available.
pub gone : List ChunkMeta → ℕ
gone [] = 0
gone (c ∷ chunks) = (if c.available then 0 else c.snapshot_count) + gone chunks

end_offset-IsIndexed :
    (c : ChunkMeta) (chunks : List ChunkMeta) (start : ℕ)
    → IsIndexed (c ∷ chunks) start
    → end_offset (c ∷ chunks) ≡ start + count_all (c ∷ chunks)
unfolding end_offset count_all
end_offset-IsIndexed c [] start (at, _, _) = omega arith
end_offset-IsIndexed c (d ∷ chunks) start (at, _, rest) =
    end_offset-IsIndexed d chunks (start + c.snapshot_count) rest ∙ omega arith

end_offset_count :
    (chunks : List ChunkMeta) → IsIndexed chunks 0 → end_offset chunks ≡ count_all chunks
unfolding end_offset count_all
end_offset_count [] i = refl
end_offset_count (c ∷ chunks) i = end_offset-IsIndexed c chunks 0 i ∙ omega arith

new_chunks-IsIndexed :
    (known : List ChunkMeta) (paths : List (String × Bytes)) (start : ℕ)
    → IsIndexed (new_chunks known paths start) start × HasTimes (new_chunks known paths start)
unfolding new_chunks
new_chunks-IsIndexed known [] start = (tt, tt)
new_chunks-IsIndexed known ((path, bytes) ∷ paths) start =
    let passed = new_chunks-IsIndexed known paths start in
    elim (Bool-cases (is_known path known)) [
      | inl old ↦ rw old passed
      | inr fresh ↦ elim (Result-cases (read_chunk_metadata bytes)) [
        | inr (e, bad) ↦ rw (fresh, bad) passed
        | inl (meta, good) ↦ elim (Bool-cases (meta.snapshot_count == 0)) [
          | inl empty ↦ rw (fresh, good, empty) passed
          | inr full ↦
              let rest = new_chunks-IsIndexed known paths (start + meta.snapshot_count) in
              rw (fresh, good, full)
                ((refl, ground arith, rest.0), (metadata_times bytes meta good, rest.1))
        ]
      ]
    ]

IsIndexed-append :
    (xs ys : List ChunkMeta) (start : ℕ)
    → IsIndexed xs start
    → IsIndexed ys (start + count_all xs)
    → IsIndexed (xs ++ ys) start
unfolding count_all
IsIndexed-append [] ys start i j = subst (IsIndexed ys) (omega arith) j
IsIndexed-append (x ∷ xs) ys start (at, some_snapshots, i) j = (
  at,
  some_snapshots,
  IsIndexed-append xs ys (start + x.snapshot_count) i (subst (IsIndexed ys) (omega arith) j),
)

HasTimes-append : (xs ys : List ChunkMeta) → HasTimes xs → HasTimes ys → HasTimes (xs ++ ys)
HasTimes-append [] ys i j = j
HasTimes-append (x ∷ xs) ys (here, i) j = (here, HasTimes-append xs ys i j)

count_all-append : (xs ys : List ChunkMeta) → count_all (xs ++ ys) ≡ count_all xs + count_all ys
unfolding count_all
count_all-append [] ys = omega arith
count_all-append (x ∷ xs) ys = omega (arith, count_all-append xs ys)

mark_deleted-IsIndexed :
    (disk : Disk) (chunks : List ChunkMeta) (start : ℕ)
    → IsIndexed chunks start
    → HasTimes chunks
    → IsIndexed (mark_deleted disk chunks) start
      × HasTimes (mark_deleted disk chunks)
      × (count_all (mark_deleted disk chunks) ≡ count_all chunks)
unfolding mark_deleted count_all
mark_deleted-IsIndexed disk [] start i times = (tt, tt, refl)
mark_deleted-IsIndexed disk (c ∷ chunks) start (at, some_snapshots, i) (here, times) =
    let (j, kept, count) = mark_deleted-IsIndexed disk chunks (start + c.snapshot_count) i times in
    ((at, some_snapshots, j), (here, kept), ap (λ n. c.snapshot_count + n) count)

length-available :
    (chunks : List ChunkMeta)
    → HasTimes chunks
    → length (available_times chunks) + gone chunks ≡ count_all chunks
unfolding available_times gone count_all
length-available [] times = refl
length-available (c ∷ chunks) (here, times) = ground (
  arith,
  here,
  length-append c.timestamps (available_times chunks),
  length-available chunks times,
)

available-times_all :
    (chunks : List ChunkMeta)
    → available_times chunks ≡ times_all (keep_if (λ c. c.available) chunks)
unfolding available_times times_all keep_if
available-times_all [] = refl
available-times_all (c ∷ chunks) = ground (arith, available-times_all chunks)

-- The chunks that a refresh adds.
abbrev pub added_by : Disk → HistoryProvider → List ChunkMeta
added_by disk p = new_chunks p.chunks (sort_paths disk.chunk_files) (end_offset p.chunks)

-- The timestamps of the chunks that are available, those of the added chunks again, and the log's.
abbrev pub times_after : Disk → HistoryProvider → HistoryProvider → List (ℕ × ℕ × ℤ) → List ℤ
times_after disk p q entries =
    times_all (keep_if (λ c. c.available) q.chunks)
    ++ (times_all (added_by disk p) ++ map (λ (e : ℕ × ℕ × ℤ). e.2) entries)

abbrev Refreshed : Disk → HistoryProvider → List (ℕ × ℕ × ℤ) → HistoryProvider → Type 0
Refreshed disk p entries q =
    IsIndex q
    × HasTimes q.chunks
    × IsSorted q.timestamps
    × Perm q.timestamps (times_after disk p q entries)
    × (length q.timestamps + gone q.chunks ≡ q.total_snapshots + count_all (added_by disk p))

refreshed :
    (disk : Disk) (p : HistoryProvider) (entries : List (ℕ × ℕ × ℤ))
    → IsIndex p
    → HasTimes p.chunks
    → Refreshed disk p entries (reindexed disk p entries)
unfolding reindexed
refreshed disk p entries (i, _, _) times =
    let added = added_by disk p in
    let before = end_offset_count p.chunks i in
    let (j, new_times) =
      new_chunks-IsIndexed p.chunks (sort_paths disk.chunk_files) (end_offset p.chunks) in
    let all =
      IsIndexed-append p.chunks added 0 i (subst (IsIndexed added) (omega (arith, before)) j) in
    let (k, kept, count) =
      mark_deleted-IsIndexed disk (p.chunks ++ added) 0 all
        (HasTimes-append p.chunks added times new_times) in
    let sums = count_all-append p.chunks added in
    let wal = wal_index-WalBehind entries (end_offset p.chunks + count_all added) in
    let chunks = mark_deleted disk (p.chunks ++ added) in
    let news = times_all added ++ map (λ (e : ℕ × ℕ × ℤ). e.2) entries in
    (
      (
        k,
        subst (WalBehind (wal_index entries (end_offset p.chunks + count_all added)))
            (omega (arith, before, sums, count)) (wal.0),
        omega (arith, before, sums, count, wal.1),
      ),
      kept,
      sort-IsSorted _,
      subst (λ times. Perm (sort_times (available_times chunks ++ news)) (times ++ news))
          (available-times_all chunks) (sort_times-Perm (available_times chunks ++ news)),
      omega (
        arith,
        length-sort_times (available_times chunks ++ news),
        length-append (available_times chunks) news,
        length-append (times_all added) (map (λ (e : ℕ × ℕ × ℤ). e.2) entries),
        length-times_all added new_times,
        length-map (λ (e : ℕ × ℕ × ℤ). e.2) entries,
        length-available chunks kept,
        before,
        sums,
        count,
      ),
    )

module _ (crc32 : Crc32) (postcard : Postcard WalEntry) where
  -- A refresh that succeeds, of a well-formed index with a timestamp for each snapshot of its chunks,
  -- leaves a well-formed index with sorted timestamps: those of the chunks that are available, those
  -- of the chunks that it added a second time, and those of the entries in the log. So there is one
  -- for each snapshot, less those of the chunks that are gone, and those of the added chunks once
  -- more.
  pub refresh-IsIndex :
      (disk : Disk) (p q : HistoryProvider) (news : ℕ)
      → IsIndex p
      → HasTimes p.chunks
      → refresh crc32 postcard disk p ≡ ok (q, news)
      → (entries : List (ℕ × ℕ × ℤ)) × (scan_wal crc32 postcard disk ≡ ok entries)
        × IsIndex q
        × HasTimes q.chunks
        × IsSorted q.timestamps
        × Perm q.timestamps (
            times_all (keep_if (λ c. c.available) q.chunks)
            ++ (times_all (added_by disk p) ++ map (λ (e : ℕ × ℕ × ℤ). e.2) entries))
        × (length q.timestamps + gone q.chunks ≡ q.total_snapshots + count_all (added_by disk p))
  unfolding refresh
  refresh-IsIndex disk p q news i times h = elim (Bool-cases (disk.readable)) [
    | inr unreadable ↦ absurd (ground (arith, unreadable))
    | inl readable ↦ elim (Result-cases (scan_wal crc32 postcard disk)) [
      | inr (e, stuck) ↦ absurd (ground (arith, readable, stuck))
      | inl (entries, walked) ↦
          let found = reindexed disk p entries in
          let same : ◌≡◌ {A = Result (ProviderError × HistoryProvider) (HistoryProvider × ℕ)}
              (ok (found, (found.total_snapshots + 2 ^ 64 - p.total_snapshots) % 2 ^ 64))
              (ok (q, news)) =
            ground (arith, readable, walked, h) in
          let is : found ≡ q = ap (λ (r : HistoryProvider × ℕ). r.0) (ok_injective same) in
          let (index, kept, sorted, from, count) =
            subst (Refreshed disk p entries) is (refreshed disk p entries i times) in
          (entries, walked, index, kept, sorted, from, count)
    ]
  ]
