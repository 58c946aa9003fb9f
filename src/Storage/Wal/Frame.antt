-- ===== src/Storage/Wal/Frame.antt =====
-- What a read of one frame depends on, and that it returns the entry that was written.
use rpglot.Prelude.{
  ℕ, ◌+◌, ◌-◌, ◌%◌, ◌^◌, ◌≤◌, ◌<◌, [], ◌++◌, ◌≡◌, refl, sym, ap, ◌∙◌, arith, ltb, if◌then◌else◌,
  length, take, length-append, length-take, append_assoc, append-nil,
}
use rpglot.Prelude.Bytes.{
  Bytes, to_le_bytes, from_le_bytes, slice, slice_behind, slice_before, slice_whole, slice-take,
  slice_at, length-to_le_bytes, from-to_le_bytes,
}
use rpglot.Prelude.Result.{ok, err}
use rpglot.Storage.External.{Postcard, Crc32}
use rpglot.Storage.Wal.{
  WalEntry, WalFrameError, truncated_header, truncated_payload, FrameResult, framed, decode_payload,
  read_wal_frame_validated, max_wal_entry_size,
}

abbrev pub shift : ℕ → FrameResult → FrameResult
shift n (ok (e, next)) = ok (e, n + next)
shift n (err e) = err e

module _ (crc32 : Crc32) (postcard : Postcard WalEntry) where
  abbrev read : Bytes → ℕ → FrameResult
  read = read_wal_frame_validated crc32 postcard

  shift-decode_payload :
      (n : ℕ) (payload : Bytes) (end : ℕ)
      → decode_payload crc32 postcard payload (n + end)
        ≡ shift n (decode_payload crc32 postcard payload end)
  unfolding decode_payload
  shift-decode_payload n payload end = ground arith

  -- Bytes before a frame move it.
  pub read_behind :
      (pre rest : Bytes) (position : ℕ)
      → read (pre ++ rest) (length pre + position) ≡ shift (length pre) (read rest position)
  unfolding read_wal_frame_validated
  read_behind pre rest position =
      let size = from_le_bytes (slice rest position 4) in
      ground (
        arith,
        length-append pre rest,
        slice_behind pre rest (length pre + position) position 4,
        slice_behind pre rest (length pre + position + 4) (position + 4) 4,
        slice_behind pre rest (length pre + position + 8) (position + 8) size,
        shift-decode_payload (length pre) (slice rest (position + 8) size) (position + 8 + size),
      )

  -- A frame that was read has its header, and ends within the data.
  pub read_bounds :
      (bytes : Bytes) (position : ℕ) {e : WalEntry} {next : ℕ}
      → read bytes position ≡ ok (e, next)
      → (position + 8 ≤ next) × (next ≤ length bytes)
  unfolding read_wal_frame_validated
  read_bounds bytes position h = ground arith

  -- Too near the end there is no header.
  pub read_past :
      (bytes : Bytes) (position : ℕ)
      → length bytes < position + 8
      → read bytes position ≡ err truncated_header
  unfolding read_wal_frame_validated
  read_past bytes position h = ground arith

  -- Bytes behind a frame do not change what it reads as.
  pub read_before :
      (bytes more : Bytes) (position : ℕ) {e : WalEntry} {next : ℕ}
      → read bytes position ≡ ok (e, next)
      → read (bytes ++ more) position ≡ ok (e, next)
  unfolding read_wal_frame_validated
  read_before bytes more position h =
      let size = from_le_bytes (slice bytes position 4) in
      ground (
        arith,
        length-append bytes more,
        slice_before bytes more position 4,
        slice_before bytes more (position + 4) 4,
        slice_before bytes more (position + 8) size,
      )

  -- Errors that more data cannot mend.
  abbrev pub IsFinal : WalFrameError → Type 0
  IsFinal truncated_header = ⊥
  IsFinal (truncated_payload _ _) = ⊥
  IsFinal e = Unit

  pub final_before :
      (bytes more : Bytes) (position : ℕ) (e : WalFrameError)
      → read bytes position ≡ err e
      → IsFinal e
      → read (bytes ++ more) position ≡ err e
  unfolding read_wal_frame_validated
  final_before bytes more position e h final =
      let size = from_le_bytes (slice bytes position 4) in
      ground (
        arith,
        length-append bytes more,
        slice_before bytes more position 4,
        slice_before bytes more (position + 4) 4,
        slice_before bytes more (position + 8) size,
      )

  pub read_cut :
      (bytes : Bytes) (position end : ℕ) {e : WalEntry} {next : ℕ}
      → read bytes position ≡ ok (e, next)
      → next ≤ end
      → end ≤ length bytes
      → read (take end bytes) position ≡ ok (e, next)
  unfolding read_wal_frame_validated
  read_cut bytes position end h inside fits =
      let size = from_le_bytes (slice bytes position 4) in
      ground (
        arith,
        length-take end bytes,
        slice-take bytes end position 4,
        slice-take bytes end (position + 4) 4,
        slice-take bytes end (position + 8) size,
      )

  pub length-framed :
      (encoded : Bytes) → length (framed crc32 postcard encoded) ≡ length encoded + 8
  unfolding framed
  length-framed encoded =
      let size = to_le_bytes 4 (length encoded % 2 ^ 32) in
      let crc = to_le_bytes 4 (crc32.hash encoded) in
      omega (
        arith,
        length-append size (crc ++ encoded),
        length-append crc encoded,
        length-to_le_bytes 4 (length encoded % 2 ^ 32),
        length-to_le_bytes 4 (crc32.hash encoded),
      )

  -- The three parts of a frame, where they stand.
  module _ (encoded rest : Bytes) where
    abbrev size_bytes : Bytes
    size_bytes = to_le_bytes 4 (length encoded % 2 ^ 32)

    abbrev crc_bytes : Bytes
    crc_bytes = to_le_bytes 4 (crc32.hash encoded)

    framed-rest :
        framed crc32 postcard encoded ++ rest ≡ size_bytes ++ (crc_bytes ++ (encoded ++ rest))
    unfolding framed
    framed-rest = simp append_assoc

    slice_size : slice (framed crc32 postcard encoded ++ rest) 0 4 ≡ size_bytes
    slice_size =
        rw framed-rest
          (slice_whole size_bytes (crc_bytes ++ (encoded ++ rest)) 4 (sym (length-to_le_bytes 4 _)))

    slice_crc : slice (framed crc32 postcard encoded ++ rest) 4 4 ≡ crc_bytes
    slice_crc = rw framed-rest (
        slice_at size_bytes crc_bytes (encoded ++ rest) 4 4 (sym (length-to_le_bytes 4 _))
          (sym (length-to_le_bytes 4 _)))

    slice_payload : slice (framed crc32 postcard encoded ++ rest) 8 (length encoded) ≡ encoded
    slice_payload = rw framed-rest (
        slice_behind size_bytes (crc_bytes ++ (encoded ++ rest)) 8 4 (length encoded)
          (omega (arith, length-to_le_bytes 4 (length encoded % 2 ^ 32)))
        ∙ slice_at crc_bytes encoded rest 4 (length encoded) (sym (length-to_le_bytes 4 _)) refl)

  -- The frame that was written is read back, whatever stands behind it.
  pub read_written :
      (entry : WalEntry) (encoded rest : Bytes)
      → postcard.to_allocvec entry ≡ ok encoded
      → length encoded ≤ max_wal_entry_size
      → read (framed crc32 postcard encoded ++ rest) 0
        ≡ ok (entry, length (framed crc32 postcard encoded))
  unfolding read_wal_frame_validated decode_payload
  read_written entry encoded rest serialized fits =
      let size = length encoded % 2 ^ 32 in
      ground (
        arith,
        length-append (framed crc32 postcard encoded) rest,
        length-framed encoded,
        slice_size encoded rest,
        slice_crc encoded rest,
        slice_payload encoded rest,
        from-to_le_bytes 4 size (omega arith),
        from-to_le_bytes 4 (crc32.hash encoded) (crc32.hash_u32 encoded),
        postcard.from_bytes-to_allocvec entry encoded serialized,
      )

  -- A frame cut short, by a crash within the write, reads as truncated.
  pub read_torn :
      (encoded : Bytes) (k : ℕ)
      → k < length (framed crc32 postcard encoded)
      → length encoded ≤ max_wal_entry_size
      → read (take k (framed crc32 postcard encoded)) 0
        ≡ err (if ltb k 8 then truncated_header else truncated_payload (length encoded) (k - 8))
  unfolding read_wal_frame_validated
  read_torn encoded k short fits =
      let frame = framed crc32 postcard encoded in
      let size = length encoded % 2 ^ 32 in
      ground (
        arith,
        length-take k frame,
        length-framed encoded,
        slice-take frame k 0 4,
        ap (λ b. slice b 0 4) (append-nil frame),
        slice_size encoded [],
        from-to_le_bytes 4 size (omega arith),
      )
