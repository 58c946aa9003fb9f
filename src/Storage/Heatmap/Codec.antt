-- ===== src/Storage/Heatmap/Codec.antt =====
-- heatmap.rs, the sidecar file: write_heatmap and read_heatmap.
use rpglot.Prelude.{
  ℕ, zero, suc, ◌+◌, ◌*◌, ◌/◌, ◌%◌, ◌^◌, ◌<◌, not, ◌||◌, List, [], ◌∷◌, ◌++◌, length, drop, ltb,
  ◌==◌, if◌then◌else◌, ◌≡◌, refl, sym, ap, ◌∙◌, append_assoc, length-append, arith,
}
use rpglot.Prelude.Bytes.{Bytes, to_le_bytes, from_le_bytes, slice, slice_behind}
use rpglot.Prelude.Result.{Result, ok, err}
use rpglot.Storage.Chunk.Read.{bytes_eq}
use rpglot.Storage.Heatmap.{HeatmapEntry}

abbrev pub heatmap_magic : Bytes
heatmap_magic = b'H' ∷ b'M' ∷ b'0' ∷ b'4' ∷ []

abbrev pub entry_size : ℕ
entry_size = 15

pub data HeatmapError : Type 0 where
  invalid_magic invalid_size : HeatmapError

unfoldable pub entry_to_bytes : HeatmapEntry → Bytes
entry_to_bytes e =
    to_le_bytes 2 e.active_sessions
    ++ (to_le_bytes 2 e.cpu_pct_x10
        ++ (to_le_bytes 2 e.cgroup_cpu_pct_x10
            ++ (to_le_bytes 2 e.cgroup_mem_pct_x10
                ++ e.errors_critical ∷ e.errors_warning ∷ e.errors_info ∷ e.checkpoint_count
                  ∷ e.autovacuum_count ∷ e.slow_query_count ∷ e.health_score ∷ [])))

unfoldable pub entries_to_bytes : List HeatmapEntry → Bytes
entries_to_bytes [] = []
entries_to_bytes (e ∷ entries) = entry_to_bytes e ++ entries_to_bytes entries

-- The bytes that write_heatmap writes.
unfoldable pub write_heatmap : List HeatmapEntry → Bytes
write_heatmap entries = heatmap_magic ++ entries_to_bytes entries

-- `payload[i]`
unfoldable pub byte_at : Bytes → ℕ → ℕ
byte_at payload i = from_le_bytes (slice payload i 1)

unfoldable pub entry_from_bytes : Bytes → ℕ → HeatmapEntry
entry_from_bytes payload off = record {
  active_sessions = from_le_bytes (slice payload off 2);
  cpu_pct_x10 = from_le_bytes (slice payload (off + 2) 2);
  cgroup_cpu_pct_x10 = from_le_bytes (slice payload (off + 4) 2);
  cgroup_mem_pct_x10 = from_le_bytes (slice payload (off + 6) 2);
  errors_critical = byte_at payload (off + 8);
  errors_warning = byte_at payload (off + 9);
  errors_info = byte_at payload (off + 10);
  checkpoint_count = byte_at payload (off + 11);
  autovacuum_count = byte_at payload (off + 12);
  slow_query_count = byte_at payload (off + 13);
  health_score = byte_at payload (off + 14);
}

unfoldable pub entries_loop : Bytes → ℕ → ℕ → List HeatmapEntry
entries_loop payload zero i = []
entries_loop payload (suc remaining) i =
    entry_from_bytes payload (i * entry_size) ∷ entries_loop payload remaining (suc i)

-- read_heatmap, where the file could be read
unfoldable pub read_heatmap : Bytes → Result HeatmapError (List HeatmapEntry)
read_heatmap bytes =
    if ltb (length bytes) 4 || not (bytes_eq (slice bytes 0 4) heatmap_magic)
    then err invalid_magic
    else let payload = drop 4 bytes in
      if not (length payload % entry_size == 0)
      then err invalid_size
      else ok (entries_loop payload (length payload / entry_size) 0)

-- The fields are `u16`s and `u8`s.
abbrev pub IsEntry : HeatmapEntry → Type 0
IsEntry e =
    (e.active_sessions < 2 ^ 16)
    × (e.cpu_pct_x10 < 2 ^ 16)
    × (e.cgroup_cpu_pct_x10 < 2 ^ 16)
    × (e.cgroup_mem_pct_x10 < 2 ^ 16)
    × (e.errors_critical < 256)
    × (e.errors_warning < 256)
    × (e.errors_info < 256)
    × (e.checkpoint_count < 256)
    × (e.autovacuum_count < 256)
    × (e.slow_query_count < 256)
    × (e.health_score < 256)

abbrev pub AllEntries : List HeatmapEntry → Type 0
AllEntries [] = Unit
AllEntries (e ∷ entries) = IsEntry e × AllEntries entries

entry_back :
    (e : HeatmapEntry) (rest : Bytes)
    → IsEntry e
    → entry_from_bytes (entry_to_bytes e ++ rest) 0 ≡ e
unfolding entry_from_bytes entry_to_bytes byte_at slice to_le_bytes from_le_bytes
entry_back e rest h = ground arith

entry_behind :
    (pre rest : Bytes) (off : ℕ)
    → off ≡ length pre
    → entry_from_bytes (pre ++ rest) off ≡ entry_from_bytes rest 0
unfolding entry_from_bytes byte_at
entry_behind pre rest off h = cc (
  slice_behind pre rest off 0 2 (omega arith),
  slice_behind pre rest (off + 2) 2 2 (omega arith),
  slice_behind pre rest (off + 4) 4 2 (omega arith),
  slice_behind pre rest (off + 6) 6 2 (omega arith),
  slice_behind pre rest (off + 8) 8 1 (omega arith),
  slice_behind pre rest (off + 9) 9 1 (omega arith),
  slice_behind pre rest (off + 10) 10 1 (omega arith),
  slice_behind pre rest (off + 11) 11 1 (omega arith),
  slice_behind pre rest (off + 12) 12 1 (omega arith),
  slice_behind pre rest (off + 13) 13 1 (omega arith),
  slice_behind pre rest (off + 14) 14 1 (omega arith),
)

length-entry : (e : HeatmapEntry) → length (entry_to_bytes e) ≡ 15
unfolding entry_to_bytes to_le_bytes
length-entry e = refl

length-entries : (es : List HeatmapEntry) → length (entries_to_bytes es) ≡ 15 * length es
unfolding entries_to_bytes
length-entries [] = refl
length-entries (e ∷ es) = omega (
  arith,
  length-entries es,
  length-entry e,
  length-append (entry_to_bytes e) (entries_to_bytes es),
)

entries_back :
    (pre : Bytes) (i : ℕ) (es : List HeatmapEntry)
    → length pre ≡ i * 15
    → AllEntries es
    → entries_loop (pre ++ entries_to_bytes es) (length es) i ≡ es
unfolding entries_loop entries_to_bytes
entries_back pre i [] h all = refl
entries_back pre i (e ∷ es) h (fits, all) =
    let bytes = entry_to_bytes e in
    let more = entries_to_bytes es in
    let here : entry_from_bytes (pre ++ (bytes ++ more)) (i * 15) ≡ e =
      entry_behind pre (bytes ++ more) (i * 15) (sym h) ∙ entry_back e more fits in
    let next : entries_loop (pre ++ (bytes ++ more)) (length es) (suc i) ≡ es =
      ap (λ b. entries_loop b (length es) (suc i)) (sym (append_assoc pre bytes more))
      ∙ entries_back (pre ++ bytes) (suc i) es
          (omega (arith, length-append pre bytes, length-entry e)) all in
    cc (here, next)

-- A sidecar file that was written is read back, where the fields fit into their types.
pub read-write_heatmap :
    (entries : List HeatmapEntry)
    → AllEntries entries
    → read_heatmap (write_heatmap entries) ≡ ok entries
unfolding read_heatmap write_heatmap bytes_eq slice
read-write_heatmap entries all =
    ground (arith, length-entries entries, entries_back [] 0 entries refl all)
