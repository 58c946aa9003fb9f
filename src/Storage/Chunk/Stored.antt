-- ===== src/Storage/Chunk/Stored.antt =====
-- The loop over the snapshots stores each of them where its index entry says, and neither what is
-- appended nor the rewrite of the header and the index changes that.
use rpglot.Prelude.{
  ℕ, zero, suc, ◌+◌, ◌-◌, ◌%◌, ◌^◌, ◌≤◌, List, [], ◌∷◌, ◌++◌, ◌≡◌, refl, sym, ap, ◌∙◌, subst, arith,
  length, take, drop, length-append, length-take, length-drop, append_assoc, append-nil,
  take-append-drop,
}
use rpglot.Prelude.Int.{ℤ}
use rpglot.Prelude.Bytes.{Bytes, slice, slice_behind, slice_before, slice_at}
use rpglot.Prelude.Result.{Result, ok, map_err, >>=-eq-ok, map_err-eq-ok}
use rpglot.Storage.External.{Zstd}
use rpglot.Storage.Chunk.Write.{ChunkError, external, IndexEntry, overwrite_start, frames_loop}

-- A slice behind what is written over stays.
pub slice-overwrite_start :
    (start file : Bytes) (from size : ℕ)
    → length start ≤ length file
    → length start ≤ from
    → slice (overwrite_start start file) from size ≡ slice file from size
unfolding overwrite_start
slice-overwrite_start start file from size fits above =
    let tail = drop (length start) file in
    slice_behind start tail from (from - length start) size (omega arith)
    ∙ sym (
        slice_behind (take (length start) file) tail from (from - length start) size
          (omega (arith, length-take (length start) file fits)))
    ∙ ap (λ b. slice b from size) (take-append-drop (length start) file)

pub length-overwrite_start :
    (start file : Bytes)
    → length start ≤ length file
    → length (overwrite_start start file) ≡ length file
unfolding overwrite_start
length-overwrite_start start file fits =
    omega (arith, length-append start (drop (length start) file), length-drop (length start) file)

module _ (zstd : Zstd) (dictionary : Bytes) (get : ℕ → Result ChunkError (Bytes × ℤ)) where
  -- The compressed snapshot `i` stands in the file, at `lo` or behind, where the entry says.
  pub record Stored (file : Bytes) (lo i : ℕ) (e : IndexEntry) : Type 0 where
    pub raw : Bytes
    pub packed : Bytes
    pub got : get i ≡ ok (raw, e.timestamp)
    pub compressed : zstd.compress dictionary raw ≡ ok packed
    pub stands : slice file e.offset e.compressed_len ≡ packed
    pub raw_len : e.uncompressed_len ≡ length raw % 2 ^ 32
    pub above : lo ≤ e.offset
    pub within : e.offset + e.compressed_len ≤ length file

  abbrev pub AllStored : Bytes → ℕ → ℕ → List IndexEntry → Type 0
  AllStored file lo i [] = Unit
  AllStored file lo i (e ∷ es) = Stored file lo i e × AllStored file lo (suc i) es

  Stored-append :
      {file : Bytes} {lo i : ℕ} {e : IndexEntry} (more : Bytes)
      → Stored file lo i e
      → Stored (file ++ more) lo i e
  Stored-append {file} {e = e} more s = record {
    raw = s.raw;
    packed = s.packed;
    got = s.got;
    compressed = s.compressed;
    stands = slice_before file more e.offset e.compressed_len s.within ∙ s.stands;
    raw_len = s.raw_len;
    above = s.above;
    within = omega (arith, s.within, length-append file more);
  }

  pub AllStored-append :
      (file : Bytes) (lo i : ℕ) (es : List IndexEntry) (more : Bytes)
      → AllStored file lo i es
      → AllStored (file ++ more) lo i es
  AllStored-append file lo i [] more s = tt
  AllStored-append file lo i (e ∷ es) more (s, rest) =
      (Stored-append more s, AllStored-append file lo (suc i) es more rest)

  Stored-overwrite :
      {file : Bytes} {lo i : ℕ} {e : IndexEntry} (start : Bytes)
      → length start ≡ lo
      → Stored file lo i e
      → Stored (overwrite_start start file) lo i e
  Stored-overwrite {file} {lo} {e = e} start h s =
      let fits : length start ≤ length file = omega (arith, s.within, s.above) in
      record {
        raw = s.raw;
        packed = s.packed;
        got = s.got;
        compressed = s.compressed;
        stands =
            slice-overwrite_start start file e.offset e.compressed_len fits (omega (arith, s.above))
            ∙ s.stands;
        raw_len = s.raw_len;
        above = s.above;
        within = omega (arith, s.within, length-overwrite_start start file fits);
      }

  pub AllStored-overwrite :
      (file : Bytes) (lo i : ℕ) (es : List IndexEntry) (start : Bytes)
      → length start ≡ lo
      → AllStored file lo i es
      → AllStored (overwrite_start start file) lo i es
  AllStored-overwrite file lo i [] start h s = tt
  AllStored-overwrite file lo i (e ∷ es) start h (s, rest) =
      (Stored-overwrite start h s, AllStored-overwrite file lo (suc i) es start h rest)

  -- What the loop returns: the file with something appended, an entry for each snapshot, and each
  -- snapshot stored.
  abbrev pub LoopResult : ℕ → ℕ → Bytes → ℕ → Bytes × List IndexEntry → Type 0
  LoopResult remaining i file lo r =
      (more : Bytes) × (r.0 ≡ file ++ more) × (length r.1 ≡ remaining) × AllStored r.0 lo i r.1

  -- The entry that a round of the loop writes.
  abbrev entry_of : Bytes → Bytes → ℤ → Bytes → IndexEntry
  entry_of file raw time packed = record {
    offset = length file;
    compressed_len = length packed;
    timestamp = time;
    uncompressed_len = length raw % 2 ^ 32;
  }

  -- The parts of a round that succeeds.
  frames_loop_round :
      (remaining i : ℕ) (file : Bytes) {r : Bytes × List IndexEntry}
      → frames_loop zstd dictionary get (suc remaining) i file ≡ ok r
      → (raw : Bytes) × (time : ℤ) × (packed : Bytes) × (rest : Bytes × List IndexEntry) × (get i
          ≡ ok (raw, time))
        × (zstd.compress dictionary raw ≡ ok packed)
        × (frames_loop zstd dictionary get remaining (suc i) (file ++ packed) ≡ ok rest)
        × (r ≡ (rest.0, entry_of file raw time packed ∷ rest.1))
  unfolding frames_loop
  frames_loop_round remaining i file h =
      let (got, fetch, h₁) = >>=-eq-ok (get i) _ h in
      let (packed, pack, h₂) = >>=-eq-ok (map_err external (zstd.compress dictionary got.0)) _ h₁ in
      let (rest, loop, h₃) =
        >>=-eq-ok (frames_loop zstd dictionary get remaining (suc i) (file ++ packed)) _ h₂ in
      (got.0, got.1, packed, rest, fetch, map_err-eq-ok external _ pack, loop, sym (cc h₃))

  Stored-new :
      (i lo : ℕ) (file raw packed more : Bytes) (time : ℤ)
      → lo ≤ length file
      → get i ≡ ok (raw, time)
      → zstd.compress dictionary raw ≡ ok packed
      → Stored ((file ++ packed) ++ more) lo i (entry_of file raw time packed)
  Stored-new i lo file raw packed more time below fetch pack = record {
    raw = raw;
    packed = packed;
    got = fetch;
    compressed = pack;
    stands =
        ap (λ b. slice b (length file) (length packed)) (append_assoc file packed more)
        ∙ slice_at file packed more (length file) (length packed) refl refl;
    raw_len = refl;
    above = below;
    within = omega (arith, length-append (file ++ packed) more, length-append file packed);
  }

  frames_loop_end :
      (i : ℕ) (file : Bytes) {r : Bytes × List IndexEntry}
      → frames_loop zstd dictionary get zero i file ≡ ok r
      → (file, []) ≡ r
  unfolding frames_loop
  frames_loop_end i file h = cc

  pub frames_loop-Stored :
      (remaining i : ℕ) (file : Bytes) (lo : ℕ) {r : Bytes × List IndexEntry}
      → frames_loop zstd dictionary get remaining i file ≡ ok r
      → lo ≤ length file
      → LoopResult remaining i file lo r
  frames_loop-Stored zero i file lo {r} h below =
      subst (LoopResult zero i file lo) (frames_loop_end i file h)
        ([], sym (append-nil file), refl, tt)
  frames_loop-Stored (suc remaining) i file lo {r} h below =
      let (raw, time, packed, rest, fetch, pack, loop, e) = frames_loop_round remaining i file h in
      let (more, grown, count, stored) =
        frames_loop-Stored remaining (suc i) (file ++ packed) lo loop
          (omega (arith, length-append file packed)) in
      subst (LoopResult (suc remaining) i file lo) (sym e) (
        packed ++ more,
        grown ∙ append_assoc file packed more,
        ap suc count,
        (
          subst (λ b. Stored b lo i (entry_of file raw time packed)) (sym grown)
              (Stored-new i lo file raw packed more time below fetch pack),
          stored,
        ),
      )
