-- ===== src/Provider/History/Index.antt =====
-- resolve_position against the list of all places.
use native.Mathlib.Decide.{dec_lt}
use rpglot.Prelude.{
  ℕ, zero, suc, ◌+◌, ◌-◌, ◌≤◌, ◌<◌, Option, none, some, List, [], ◌∷◌, ◌++◌, ◌≡◌, refl, ap, ◌∙◌,
  subst, arith, length, length-append, get_elem?, get_elem?_left, get_elem?_right,
}
use rpglot.Provider.History.{
  ChunkMeta, WalIndex, HistoryProvider, SnapshotLocation, chunk, wal_entry_at, wal_len, count_all,
  chunks_before, resolve_chunk, resolve_wal, resolve_position,
}

-- The places of a chunk's snapshots, `n` of them from `j` on.
abbrev pub places : ℕ → ℕ → ℕ → List SnapshotLocation
places idx j zero = []
places idx j (suc n) = chunk idx j ∷ places idx (suc j) n

abbrev pub chunk_places : ℕ → List ChunkMeta → List SnapshotLocation
chunk_places idx [] = []
chunk_places idx (c ∷ chunks) = places idx 0 c.snapshot_count ++ chunk_places (suc idx) chunks

abbrev pub wal_places : ℕ → ℕ → List SnapshotLocation
wal_places j zero = []
wal_places j (suc n) = wal_entry_at j ∷ wal_places (suc j) n

abbrev pub wal_count : Option WalIndex → ℕ
wal_count none = 0
wal_count (some w) = wal_len w.source

-- All places: those of each chunk in order, then those of the log.
abbrev pub all_places : HistoryProvider → List SnapshotLocation
all_places p = chunk_places 0 p.chunks ++ wal_places 0 (wal_count p.wal)

-- Each chunk begins where the one before it ends, and has a snapshot.
abbrev pub IsIndexed : List ChunkMeta → ℕ → Type 0
IsIndexed [] start = Unit
IsIndexed (c ∷ chunks) start =
    (c.global_offset ≡ start) × (0 < c.snapshot_count) × IsIndexed chunks (start + c.snapshot_count)

abbrev pub WalBehind : Option WalIndex → ℕ → Type 0
WalBehind none start = Unit
WalBehind (some w) start = w.global_offset ≡ start

abbrev pub IsIndex : HistoryProvider → Type 0
IsIndex p =
    IsIndexed p.chunks 0
    × WalBehind p.wal (count_all p.chunks)
    × (p.total_snapshots ≡ count_all p.chunks + wal_count p.wal)

get-places : (idx j n i : ℕ) → i < n → get_elem? (places idx j n) i ≡ some (chunk idx (j + i))
get-places idx j zero i h = absurd (omega arith)
get-places idx j (suc n) zero h = ap (λ k. some (chunk idx k)) (omega arith)
get-places idx j (suc n) (suc i) h =
    get-places idx (suc j) n i (omega arith) ∙ ap (λ k. some (chunk idx k)) (omega arith)

length-places : (idx j n : ℕ) → length (places idx j n) ≡ n
length-places idx j zero = refl
length-places idx j (suc n) = ap suc (length-places idx (suc j) n)

length-chunk_places :
    (idx : ℕ) (chunks : List ChunkMeta) → length (chunk_places idx chunks) ≡ count_all chunks
unfolding count_all
length-chunk_places idx [] = refl
length-chunk_places idx (c ∷ chunks) = omega (
  arith,
  length-append (places idx 0 c.snapshot_count) (chunk_places (suc idx) chunks),
  length-places idx 0 c.snapshot_count,
  length-chunk_places (suc idx) chunks,
)

get-wal_places : (j n i : ℕ) → i < n → get_elem? (wal_places j n) i ≡ some (wal_entry_at (j + i))
get-wal_places j zero i h = absurd (omega arith)
get-wal_places j (suc n) zero h = ap (λ k. some (wal_entry_at k)) (omega arith)
get-wal_places j (suc n) (suc i) h =
    get-wal_places (suc j) n i (omega arith) ∙ ap (λ k. some (wal_entry_at k)) (omega arith)

length-wal_places : (j n : ℕ) → length (wal_places j n) ≡ n
length-wal_places j zero = refl
length-wal_places j (suc n) = ap suc (length-wal_places (suc j) n)

get_elem?_past {ℓ} : {A : Type ℓ} (xs : List A) (i : ℕ) → length xs ≤ i → get_elem? xs i ≡ none
get_elem?_past [] i h = refl
get_elem?_past (x ∷ xs) zero h = absurd (omega arith)
get_elem?_past (x ∷ xs) (suc i) h = get_elem?_past xs i (omega arith)

-- No chunk begins at or before a position before all of them.
chunks_before_none :
    (chunks : List ChunkMeta) (start position : ℕ)
    → IsIndexed chunks start
    → position < start
    → chunks_before chunks position ≡ 0
unfolding chunks_before
chunks_before_none [] start position i h = refl
chunks_before_none (c ∷ chunks) start position (at, _, _) h = ground arith

-- The last chunk that begins at or before a position, and the position's place in it.
abbrev Hit : List ChunkMeta → ℕ → ℕ → ℕ → Type 0
Hit chunks idx start position =
    (k : ℕ) × (c : ChunkMeta) × (chunks_before chunks position ≡ suc k)
    × (get_elem? chunks k ≡ some c)
    × (position - c.global_offset < c.snapshot_count)
    × (get_elem? (chunk_places idx chunks) (position - start)
        ≡ some (chunk (idx + k) (position - c.global_offset)))

hit :
    (chunks : List ChunkMeta) (idx start position : ℕ)
    → IsIndexed chunks start
    → start ≤ position
    → position < start + count_all chunks
    → Hit chunks idx start position
unfolding chunks_before count_all
hit [] idx start position i lo hi = absurd (omega arith)
hit (c ∷ chunks) idx start position (at, some_snapshots, rest) lo hi =
    let n = c.snapshot_count in
    let more = chunk_places (suc idx) chunks in
    elim (dec_lt position (start + n)) [
      | yes inside ↦ (
        0,
        c,
        ground (arith, chunks_before_none chunks (start + n) position rest inside),
        refl,
        omega arith,
        get_elem?_left (places idx 0 n) more (position - start)
              (omega (arith, length-places idx 0 n))
            ∙ get-places idx 0 n (position - start) (omega arith)
            ∙ ap (λ j. some (chunk idx j)) (omega arith)
            ∙ ap (λ m. some (chunk m (position - c.global_offset))) (omega arith),
      )
      | no behind ↦
          let (k, d, before, found, within, place) =
            hit chunks (suc idx) (start + n) position rest (omega arith) (omega arith) in
          (
            suc k,
            d,
            ground (arith, before),
            found,
            within,
            get_elem?_right (places idx 0 n) more (position - start)
                  (omega (arith, length-places idx 0 n))
                ∙ ap (get_elem? more) (omega (arith, length-places idx 0 n))
                ∙ place
                ∙ ap (λ m. some (chunk m (position - d.global_offset))) (omega arith),
          )
    ]

module _ (p : HistoryProvider) (index : IsIndex p) where
  resolve_in_chunks :
      (position : ℕ)
      → position < count_all p.chunks
      → resolve_chunk p.chunks position ≡ get_elem? (all_places p) position
  unfolding resolve_chunk
  resolve_in_chunks position h =
      let (k, c, before, found, within, place) =
        hit p.chunks 0 0 position (index.0) (omega arith) (omega arith) in
      let here : get_elem? (all_places p) position ≡ some (chunk k (position - c.global_offset)) =
        get_elem?_left (chunk_places 0 p.chunks) (wal_places 0 (wal_count p.wal)) position
          (omega (arith, length-chunk_places 0 p.chunks))
        ∙ ap (get_elem? (chunk_places 0 p.chunks)) (omega arith)
        ∙ place
        ∙ ap (λ m. some (chunk m (position - c.global_offset))) (omega arith) in
      let at : get_elem? p.chunks (chunks_before p.chunks position - 1) ≡ some c =
        ap (get_elem? p.chunks) (omega (arith, before)) ∙ found in
      ground (arith, before, at, within, here)

  length-all_places : length (all_places p) ≡ p.total_snapshots
  length-all_places = omega (
    arith,
    index.2,
    length-append (chunk_places 0 p.chunks) (wal_places 0 (wal_count p.wal)),
    length-chunk_places 0 p.chunks,
    length-wal_places 0 (wal_count p.wal),
  )

  place_in_wal :
      (position : ℕ)
      → count_all p.chunks ≤ position
      → position < p.total_snapshots
      → get_elem? (all_places p) position ≡ some (wal_entry_at (position - count_all p.chunks))
  place_in_wal position lo hi =
      get_elem?_right (chunk_places 0 p.chunks) (wal_places 0 (wal_count p.wal)) position
        (omega (arith, length-chunk_places 0 p.chunks))
      ∙ ap (get_elem? (wal_places 0 (wal_count p.wal)))
          (omega (arith, length-chunk_places 0 p.chunks))
      ∙ get-wal_places 0 (wal_count p.wal) (position - count_all p.chunks) (omega (arith, index.2))
      ∙ ap (λ j. some (wal_entry_at j)) (omega arith)

  resolve_in_range :
      (o : Option WalIndex) (position : ℕ)
      → p.wal ≡ o
      → position < p.total_snapshots
      → resolve_position p position ≡ get_elem? (all_places p) position
  unfolding resolve_position resolve_wal
  resolve_in_range none position is h =
      let chunks_only : p.total_snapshots ≡ count_all p.chunks + 0 =
        index.2 ∙ ap (λ o. count_all p.chunks + wal_count o) is in
      ground (arith, is, resolve_in_chunks position (omega (arith, chunks_only)))
  resolve_in_range (some w) position is h =
      let behind : w.global_offset ≡ count_all p.chunks =
        subst (λ o. WalBehind o (count_all p.chunks)) is (index.1) in
      let total : p.total_snapshots ≡ count_all p.chunks + wal_len w.source =
        index.2 ∙ ap (λ o. count_all p.chunks + wal_count o) is in
      ground (arith, is, behind, total, resolve_in_chunks position, place_in_wal position)

  -- On an index whose chunks begin where the one before ends, with the log behind them, a position
  -- resolves to the place at that position in the list of all places, chunk by chunk and then the log;
  -- a position past the end resolves to none.
  pub resolve-places :
      (position : ℕ) → resolve_position p position ≡ get_elem? (all_places p) position
  unfolding resolve_position
  resolve-places position = elim (dec_lt position p.total_snapshots) [
    | yes inside ↦ resolve_in_range (p.wal) position refl inside
    | no past ↦
        ground (arith, get_elem?_past (all_places p) position (omega (arith, length-all_places)))
  ]
