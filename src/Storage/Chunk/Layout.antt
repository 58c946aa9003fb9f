-- ===== src/Storage/Chunk/Layout.antt =====
-- The header and the index table read back as they were written.
use rpglot.Prelude.{
  ℕ, suc, ◌+◌, ◌*◌, ◌^◌, ◌<◌, List, [], ◌∷◌, ◌++◌, ◌≡◌, refl, sym, ap, ◌∙◌, arith, map, length,
  length-append, append_assoc,
}
use rpglot.Prelude.Int.{IsI64, i64_bits, i64_of_bits, i64_bits_lt, i64_of_bits-i64_bits}
use rpglot.Prelude.Bytes.{Bytes, to_le_bytes, from_le_bytes, slice, slice_behind, from-to_le_bytes}
use rpglot.Storage.Chunk.Write.{
  IndexEntry, magic, version, header_size, index_entry_size, header_bytes, entry_bytes, index_bytes,
}
use rpglot.Storage.Chunk.Read.{parse_entry, index_loop, timestamps_loop}

-- The fields of a header, in the slices that the readers take.
abbrev pub HeaderFields : Bytes → ℕ → ℕ → ℕ → ℕ → ℕ → Type 0
HeaderFields bytes count interner_offset interner_len dict_offset dict_len =
    (slice bytes 0 4 ≡ magic)
    × (slice bytes 4 2 ≡ to_le_bytes 2 version)
    × (slice bytes 6 2 ≡ to_le_bytes 2 count)
    × (slice bytes 8 8 ≡ to_le_bytes 8 interner_offset)
    × (slice bytes 16 8 ≡ to_le_bytes 8 interner_len)
    × (slice bytes 24 8 ≡ to_le_bytes 8 dict_offset)
    × (slice bytes 32 8 ≡ to_le_bytes 8 dict_len)

pub header_fields :
    (count interner_offset interner_len dict_offset dict_len : ℕ) (rest : Bytes)
    → HeaderFields
        (header_bytes count interner_offset interner_len dict_offset dict_len ++ rest)
        count
        interner_offset
        interner_len
        dict_offset
        dict_len
unfolding header_bytes slice to_le_bytes
header_fields count interner_offset interner_len dict_offset dict_len rest =
    (refl, refl, refl, refl, refl, refl, refl)

pub length-header_bytes :
    (count interner_offset interner_len dict_offset dict_len : ℕ)
    → length (header_bytes count interner_offset interner_len dict_offset dict_len) ≡ header_size
unfolding header_bytes to_le_bytes
length-header_bytes count interner_offset interner_len dict_offset dict_len = refl

pub length-entry_bytes : (e : IndexEntry) → length (entry_bytes e) ≡ index_entry_size
unfolding entry_bytes to_le_bytes
length-entry_bytes e = refl

pub length-index_bytes :
    (es : List IndexEntry) → length (index_bytes es) ≡ length es * index_entry_size
unfolding index_bytes
length-index_bytes [] = omega arith
length-index_bytes (e ∷ es) = omega (
  arith,
  length-append (entry_bytes e) (index_bytes es),
  length-entry_bytes e,
  length-index_bytes es,
)

-- The fields fit into their widths.
pub record Fits (e : IndexEntry) : Type 0 where
  pub offset_fits : e.offset < 2 ^ 64
  pub compressed_len_fits : e.compressed_len < 2 ^ 64
  pub timestamp_fits : IsI64 e.timestamp
  pub uncompressed_len_fits : e.uncompressed_len < 2 ^ 32

abbrev pub AllFit : List IndexEntry → Type 0
AllFit [] = Unit
AllFit (e ∷ es) = Fits e × AllFit es

entry_fields :
    (e : IndexEntry) (rest : Bytes)
    → (slice (entry_bytes e ++ rest) 0 8 ≡ to_le_bytes 8 e.offset)
      × (slice (entry_bytes e ++ rest) 8 8 ≡ to_le_bytes 8 e.compressed_len)
      × (slice (entry_bytes e ++ rest) 16 8 ≡ to_le_bytes 8 (i64_bits e.timestamp))
      × (slice (entry_bytes e ++ rest) 24 4 ≡ to_le_bytes 4 e.uncompressed_len)
unfolding entry_bytes slice to_le_bytes
entry_fields e rest = (refl, refl, refl, refl)

number_at :
    (pre part rest : Bytes) (from k width n : ℕ)
    → from ≡ length pre + k
    → n < 256 ^ width
    → slice (part ++ rest) k width ≡ to_le_bytes width n
    → from_le_bytes (slice (pre ++ (part ++ rest)) from width) ≡ n
number_at pre part rest from k width n h fits field =
    ap from_le_bytes (slice_behind pre (part ++ rest) from k width h ∙ field)
    ∙ from-to_le_bytes width n fits

timestamp_at :
    (pre rest : Bytes) (e : IndexEntry) (from : ℕ)
    → from ≡ length pre + 16
    → IsI64 e.timestamp
    → i64_of_bits (from_le_bytes (slice (pre ++ (entry_bytes e ++ rest)) from 8)) ≡ e.timestamp
timestamp_at pre rest e from h fits =
    ap i64_of_bits (
      number_at pre (entry_bytes e) rest from 16 8 (i64_bits e.timestamp) h
        (i64_bits_lt e.timestamp) ((entry_fields e rest).2))
    ∙ i64_of_bits-i64_bits e.timestamp fits

parse_entry_at :
    (pre rest : Bytes) (e : IndexEntry) (base : ℕ)
    → base ≡ length pre
    → Fits e
    → parse_entry (pre ++ (entry_bytes e ++ rest)) base ≡ e
unfolding parse_entry
parse_entry_at pre rest e base h fits =
    let part = entry_bytes e in
    let fields = entry_fields e rest in
    let offset : from_le_bytes (slice (pre ++ (part ++ rest)) base 8) ≡ e.offset =
      number_at pre part rest base 0 8 e.offset (omega arith) fits.offset_fits fields.0 in
    let len : from_le_bytes (slice (pre ++ (part ++ rest)) (base + 8) 8) ≡ e.compressed_len =
      number_at pre part rest (base + 8) 8 8 e.compressed_len (omega arith) fits.compressed_len_fits
        fields.1 in
    let raw_len : from_le_bytes (slice (pre ++ (part ++ rest)) (base + 24) 4) ≡ e.uncompressed_len =
      number_at pre part rest (base + 24) 24 4 e.uncompressed_len (omega arith)
        fits.uncompressed_len_fits fields.3 in
    let time = timestamp_at pre rest e (base + 16) (omega arith) fits.timestamp_fits in
    λ i. record {
      offset = offset i;
      compressed_len = len i;
      timestamp = time i;
      uncompressed_len = raw_len i;
    }

-- The first entry of an index, with what is before and behind it.
regroup :
    (pre rest : Bytes) (e : IndexEntry) (es : List IndexEntry)
    → pre ++ (index_bytes (e ∷ es) ++ rest) ≡ pre ++ (entry_bytes e ++ (index_bytes es ++ rest))
unfolding index_bytes
regroup pre rest e es = ap (◌++◌ pre) (append_assoc (entry_bytes e) (index_bytes es) rest)

pub index_loop_at :
    (pre rest : Bytes) (es : List IndexEntry) (i : ℕ)
    → length pre ≡ header_size + i * index_entry_size
    → AllFit es
    → index_loop (pre ++ (index_bytes es ++ rest)) (length es) i ≡ es
unfolding index_loop
index_loop_at pre rest [] i h fits = refl
index_loop_at pre rest (e ∷ es) i h (f, fits) =
    let whole = pre ++ (index_bytes (e ∷ es) ++ rest) in
    let split = regroup pre rest e es in
    let first : parse_entry whole (header_size + i * index_entry_size) ≡ e =
      ap (λ b. parse_entry b (header_size + i * index_entry_size)) split
      ∙ parse_entry_at pre (index_bytes es ++ rest) e _ (sym h) f in
    let others : index_loop whole (length es) (suc i) ≡ es =
      ap (λ b. index_loop b (length es) (suc i))
        (split ∙ sym (append_assoc pre (entry_bytes e) (index_bytes es ++ rest)))
      ∙ index_loop_at (pre ++ entry_bytes e) rest es (suc i)
          (omega (arith, length-append pre (entry_bytes e), length-entry_bytes e)) fits in
    λ j. first j ∷ others j

pub timestamps_loop_at :
    (pre rest : Bytes) (es : List IndexEntry) (i : ℕ)
    → length pre ≡ i * index_entry_size
    → AllFit es
    → timestamps_loop (pre ++ (index_bytes es ++ rest)) (length es) i ≡ map (λ e. e.timestamp) es
unfolding timestamps_loop
timestamps_loop_at pre rest [] i h fits = refl
timestamps_loop_at pre rest (e ∷ es) i h (f, fits) =
    let whole = pre ++ (index_bytes (e ∷ es) ++ rest) in
    let split = regroup pre rest e es in
    let first : i64_of_bits (from_le_bytes (slice whole (i * index_entry_size + 16) 8))
        ≡ e.timestamp =
      ap (λ b. i64_of_bits (from_le_bytes (slice b (i * index_entry_size + 16) 8))) split
      ∙ timestamp_at pre (index_bytes es ++ rest) e _ (omega arith) f.timestamp_fits in
    let others : timestamps_loop whole (length es) (suc i) ≡ map (λ x. x.timestamp) es =
      ap (λ b. timestamps_loop b (length es) (suc i))
        (split ∙ sym (append_assoc pre (entry_bytes e) (index_bytes es ++ rest)))
      ∙ timestamps_loop_at (pre ++ entry_bytes e) rest es (suc i)
          (omega (arith, length-append pre (entry_bytes e), length-entry_bytes e)) fits in
    λ j. first j ∷ others j
