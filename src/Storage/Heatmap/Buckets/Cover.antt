-- ===== src/Storage/Heatmap/Buckets/Cover.antt =====
-- Every entry is in its bucket.
use rpglot.Prelude.{
  ℕ, zero, suc, ◌-◌, leb, if◌then◌else◌, ◌≤◌, ◌<◌, some, List, [], ◌∷◌, length, get_elem?, ◌≡◌, ◌≢◌,
  refl, ap, ◌∙◌, subst, arith, false,
}
use rpglot.Prelude.Int.{ℤ, pos, ◌-ℤ◌, leb_ℤ, wrap_i64}
use rpglot.Prelude.Float.{FloatOps}
use rpglot.Storage.Heatmap.{HeatmapEntry}
use rpglot.Storage.Heatmap.Buckets.{
  HeatmapBucket, merge_entry, update_at, empty_buckets, bucket_index, bucket_loop, bucket_heatmap,
}

-- The bucket shows the entry: no field of it is smaller, and its health is not better.
abbrev pub Covers : HeatmapBucket → HeatmapEntry → Type 0
Covers b e =
    (e.active_sessions ≤ b.active)
    × (e.cpu_pct_x10 ≤ b.cpu)
    × (e.cgroup_cpu_pct_x10 ≤ b.cgroup_cpu)
    × (e.cgroup_mem_pct_x10 ≤ b.cgroup_mem)
    × (e.errors_critical ≤ b.errors_critical)
    × (e.errors_warning ≤ b.errors_warning)
    × (e.errors_info ≤ b.errors_info)
    × (b.health ≤ e.health_score)

merge_entry-Covers : (e : HeatmapEntry) (b : HeatmapBucket) → Covers (merge_entry e b) e
unfolding merge_entry
merge_entry-Covers e b = ground arith

merge_entry-keeps :
    (e d : HeatmapEntry) (b : HeatmapBucket) → Covers b d → Covers (merge_entry e b) d
unfolding merge_entry
merge_entry-keeps e d b h = ground arith

abbrev pub CoveredAt : List HeatmapBucket → ℕ → HeatmapEntry → Type 0
CoveredAt buckets i e = (b : HeatmapBucket) × (get_elem? buckets i ≡ some b) × Covers b e

kept-first :
    (e : HeatmapEntry) (b : HeatmapBucket) (buckets : List HeatmapBucket) (j : ℕ) (d : HeatmapEntry)
    → CoveredAt (b ∷ buckets) j d
    → CoveredAt (merge_entry e b ∷ buckets) j d
kept-first e b buckets zero d (c, at, covers) =
    let same : b ≡ c = cc at in (merge_entry e b, refl, merge_entry-keeps e d b (rw same covers))
kept-first e b buckets (suc j) d covered = covered

kept-behind :
    (b : HeatmapBucket) (buckets after : List HeatmapBucket)
    → ((j : ℕ) (d : HeatmapEntry) → CoveredAt buckets j d → CoveredAt after j d)
    → (j : ℕ) (d : HeatmapEntry) → CoveredAt (b ∷ buckets) j d
    → CoveredAt (b ∷ after) j d
kept-behind b buckets after kept zero d covered = covered
kept-behind b buckets after kept (suc j) d covered = kept j d covered

-- An index within the list is updated; the list keeps its length, and what it showed.
update_at-CoveredAt :
    (e : HeatmapEntry) (i : ℕ) (buckets : List HeatmapBucket)
    → i < length buckets
    → (after : List HeatmapBucket) × (update_at (merge_entry e) i buckets ≡ some after)
      × (length after ≡ length buckets)
      × CoveredAt after i e
      × ((j : ℕ) (d : HeatmapEntry) → CoveredAt buckets j d → CoveredAt after j d)
unfolding update_at
update_at-CoveredAt e i [] h = absurd (omega arith)
update_at-CoveredAt e zero (b ∷ buckets) h = (
  merge_entry e b ∷ buckets,
  refl,
  refl,
  (merge_entry e b, refl, merge_entry-Covers e b),
  λ j d covered. kept-first e b buckets j d covered,
)
update_at-CoveredAt e (suc i) (b ∷ buckets) h =
    let (after, updated, len, here, kept) = update_at-CoveredAt e i buckets (omega arith) in
    (
      b ∷ after,
      cc updated,
      ap suc len,
      here,
      λ j d covered. kept-behind b buckets after kept j d covered,
    )

module _ (ops : FloatOps) (start_ts end_ts : ℤ) (num_buckets : ℕ) where
  index_lt :
      (ts : ℤ) → num_buckets ≢ 0 → bucket_index ops start_ts end_ts num_buckets ts < num_buckets
  unfolding bucket_index
  index_lt ts h = ground arith

  length-empty :
      (remaining i : ℕ)
      → length (empty_buckets ops start_ts end_ts num_buckets remaining i) ≡ remaining
  unfolding empty_buckets
  length-empty zero i = refl
  length-empty (suc remaining) i = ap suc (length-empty remaining (suc i))

  -- Every entry is shown by the bucket of its time.
  abbrev AllCovered : List HeatmapBucket → List (ℤ × HeatmapEntry) → Type 0
  AllCovered buckets entries =
      (k : ℕ) (ts : ℤ) (e : HeatmapEntry)
      → get_elem? entries k ≡ some (ts, e)
      → CoveredAt buckets (bucket_index ops start_ts end_ts num_buckets ts) e

  covered_cons :
      (buckets : List HeatmapBucket) (ts : ℤ) (e : HeatmapEntry) (entries : List (ℤ × HeatmapEntry))
      → CoveredAt buckets (bucket_index ops start_ts end_ts num_buckets ts) e
      → AllCovered buckets entries
      → AllCovered buckets ((ts, e) ∷ entries)
  covered_cons buckets ts e entries here rest zero t d at =
      let same : ◌≡◌ {A = ℤ × HeatmapEntry} (ts, e) (t, d) = cc at in
      subst (λ p. CoveredAt buckets (bucket_index ops start_ts end_ts num_buckets p.0) p.1) same
        here
  covered_cons buckets ts e entries here rest (suc k) t d at = rest k t d at

  bucket_loop-Covered :
      (entries : List (ℤ × HeatmapEntry)) (buckets : List HeatmapBucket)
      → num_buckets ≢ 0
      → length buckets ≡ num_buckets
      → (after : List HeatmapBucket) × (bucket_loop ops start_ts end_ts num_buckets entries buckets
          ≡ some after)
        × (length after ≡ num_buckets)
        × AllCovered after entries
        × ((j : ℕ) (d : HeatmapEntry) → CoveredAt buckets j d → CoveredAt after j d)
  unfolding bucket_loop
  bucket_loop-Covered [] buckets h len =
      (buckets, refl, len, (λ k ts e at. cc at), λ j d covered. covered)
  bucket_loop-Covered ((ts, e) ∷ entries) buckets h len =
      let i = bucket_index ops start_ts end_ts num_buckets ts in
      let (after₁, updated, len₁, here, kept₁) =
        update_at-CoveredAt e i buckets (omega (arith, len, index_lt ts h)) in
      let (after₂, looped, len₂, all, kept₂) = bucket_loop-Covered entries after₁ h (len₁ ∙ len) in
      (
        after₂,
        cc (updated, looped),
        len₂,
        covered_cons after₂ ts e entries (kept₂ i e here) all,
        λ j d covered. kept₂ j d (kept₁ j d covered),
      )

  -- The time's share of the range, as a number of buckets that is rounded towards zero; the last bucket
  -- where that is past the end.
  abbrev pub place_of : ℤ → ℕ
  place_of ts =
      let place = ops.to_usize (
        ops.mul
          (ops.div (ops.of_int (wrap_i64 (ts -ℤ start_ts)))
            (ops.of_int (wrap_i64 (end_ts -ℤ start_ts))))
          (ops.of_int (pos num_buckets))) in
      if leb num_buckets place then num_buckets - 1 else place

  index-place_of :
      (ts : ℤ) → num_buckets ≢ 0 → bucket_index ops start_ts end_ts num_buckets ts ≡ place_of ts
  unfolding bucket_index
  index-place_of ts h = ground arith

  -- bucket_heatmap does not panic where there are entries, buckets and time between the ends, and
  -- returns as many buckets as were asked for. An entry stands in the bucket whose number is the time
  -- since the start over the length of the range, times the number of buckets, or in the last one
  -- where that is past the end: no share, count of sessions or of errors of this bucket is smaller
  -- than the entry's, and its health is not better.
  pub buckets_cover :
      (entries : List (ℤ × HeatmapEntry)) (k : ℕ) (ts : ℤ) (e : HeatmapEntry)
      → num_buckets ≢ 0
      → leb_ℤ end_ts start_ts ≡ false
      → get_elem? entries k ≡ some (ts, e)
      → (buckets : List HeatmapBucket) × (bucket_heatmap ops start_ts end_ts num_buckets entries
          ≡ some buckets)
        × (length buckets ≡ num_buckets)
        × CoveredAt buckets (place_of ts) e
  unfolding bucket_heatmap
  buckets_cover [] k ts e h order at = cc at
  buckets_cover (d ∷ entries) k ts e h order at =
      let (after, looped, len, all, _) =
        bucket_loop-Covered (d ∷ entries)
          (empty_buckets ops start_ts end_ts num_buckets num_buckets 0) h
          (length-empty num_buckets 0) in
      (
        after,
        ground (arith, looped),
        len,
        subst (λ i. CoveredAt after i e) (index-place_of ts h) (all k ts e at),
      )
