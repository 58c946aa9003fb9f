-- ===== src/Storage/Wal/Written.antt =====
-- A log that write_wal_frame wrote, and what the walk finds in it, whatever stands behind.
use rpglot.Prelude.{
  ◌%◌, ◌^◌, ◌+◌, ◌≤◌, List, [], ◌∷◌, ◌++◌, ◌≡◌, refl, sym, ap, ◌∙◌, subst, arith, length,
  length-append, append_assoc, append-nil, map,
}
use rpglot.Prelude.Bytes.{Bytes, to_le_bytes}
use rpglot.Prelude.Result.{ok, err}
use rpglot.Storage.External.{Postcard, Crc32}
use rpglot.Storage.Wal.{
  WalEntry, WalFrameError, max_wal_entry_size, framed, write_wal_frame, read_wal_frame_validated,
  no_append_faults,
}
use rpglot.Storage.Wal.Frame.{shift, read_behind, read_written}
use rpglot.Storage.Wal.Walk.{Found, Frames}

module _ (crc32 : Crc32) (postcard : Postcard WalEntry) where
  -- An entry's payload, within the limit that the reader sets.
  abbrev pub Payload : WalEntry → Bytes → Type 0
  Payload e encoded = (postcard.to_allocvec e ≡ ok encoded) × (length encoded ≤ max_wal_entry_size)

  -- The bytes are the frames of the entries, in order.
  abbrev pub Written : List WalEntry → Bytes → Type 0
  Written [] bytes = bytes ≡ []
  Written (e ∷ es) bytes =
      (encoded : Bytes) × (rest : Bytes) × Payload e encoded
      × (bytes ≡ framed crc32 postcard encoded ++ rest)
      × Written es rest

  pub Written-snoc :
      (es : List WalEntry) (e : WalEntry) (bytes encoded : Bytes)
      → Written es bytes
      → Payload e encoded
      → Written (es ++ e ∷ []) (bytes ++ framed crc32 postcard encoded)
  Written-snoc [] e bytes encoded w p =
      (encoded, [], p, ap (λ b. b ++ framed crc32 postcard encoded) w ∙ sym (append-nil _), refl)
  Written-snoc (d ∷ es) e bytes encoded (first, rest, q, split, w) p = (
    first,
    rest ++ framed crc32 postcard encoded,
    q,
    ap (λ b. b ++ framed crc32 postcard encoded) split
        ∙ append_assoc (framed crc32 postcard first) rest (framed crc32 postcard encoded),
    Written-snoc es e rest encoded w p,
  )

  -- Writing an entry whose payload is within the size limit to a log of entries succeeds, where no write
  -- and no sync fails, and leaves the log with that entry at its end.
  pub write-Written :
      (es : List WalEntry) (e : WalEntry) (bytes encoded : Bytes)
      → Written es bytes
      → Payload e encoded
      → (after : Bytes) × (write_wal_frame crc32 postcard no_append_faults bytes e ≡ ok after)
        × Written (es ++ e ∷ []) after
  unfolding write_wal_frame framed
  write-Written es e bytes encoded w p =
      let first = to_le_bytes 4 (length encoded % 2 ^ 32) in
      let second = to_le_bytes 4 (crc32.hash encoded) in
      let parts : ((bytes ++ first) ++ second) ++ encoded ≡ bytes ++ framed crc32 postcard encoded =
        append_assoc (bytes ++ first) second encoded
        ∙ append_assoc bytes first (second ++ encoded) in
      (
        bytes ++ framed crc32 postcard encoded,
        rw (p.0) (ap ok parts),
        Written-snoc es e bytes encoded w p,
      )

  read_at :
      (pre rest : Bytes)
      → read_wal_frame_validated crc32 postcard (pre ++ rest) (length pre)
        ≡ shift (length pre) (read_wal_frame_validated crc32 postcard rest 0)
  read_at pre rest =
      ap (read_wal_frame_validated crc32 postcard (pre ++ rest)) {y = length pre + 0} (omega arith)
      ∙ read_behind crc32 postcard pre rest 0

  read_next :
      (pre : Bytes) (e : WalEntry) (encoded more rest : Bytes)
      → Payload e encoded
      → read_wal_frame_validated crc32 postcard
          (pre ++ ((framed crc32 postcard encoded ++ more) ++ rest))
          (length pre)
        ≡ ok (e, length (pre ++ framed crc32 postcard encoded))
  read_next pre e encoded more rest (serialized, fits) = ground (
    arith,
    read_at pre ((framed crc32 postcard encoded ++ more) ++ rest),
    append_assoc (framed crc32 postcard encoded) more rest,
    read_written crc32 postcard e encoded (more ++ rest) serialized fits,
    length-append pre (framed crc32 postcard encoded),
  )

  -- Behind `pre` the walk finds the entries of the log, and stops where the log ends, if what stands
  -- behind the log does not read as a frame.
  pub Written-Frames :
      (pre : Bytes) (es : List WalEntry) (bytes rest : Bytes) (x : WalFrameError)
      → Written es bytes
      → read_wal_frame_validated crc32 postcard rest 0 ≡ err x
      → (fs : List Found) × (map (λ f. f.entry) fs ≡ es)
        × Frames crc32 postcard
            (pre ++ (bytes ++ rest))
            (length pre)
            fs
            (length pre + length bytes)
            x
  Written-Frames pre [] bytes rest x w stop = (
    [],
    refl,
    (omega (arith, ap length w), ground (arith, read_at pre rest, ap (λ b. b ++ rest) w)),
  )
  Written-Frames pre (e ∷ es) bytes rest x (encoded, more, p, split, w) stop =
      let frame = framed crc32 postcard encoded in
      let (fs, entries, walk) = Written-Frames (pre ++ frame) es more rest x w stop in
      let whole : pre ++ frame ++ (more ++ rest) ≡ pre ++ (bytes ++ rest) =
        rw split (simp append_assoc) in
      let end : length (pre ++ frame) + length more ≡ length pre + length bytes =
        rw split (omega (arith, length-append pre frame, length-append frame more)) in
      (
        record { entry = e; start = length pre; next = length (pre ++ frame) } ∷ fs,
        ap (◌∷◌ e) entries,
        (
          refl,
          rw split (read_next pre e encoded more rest p),
          subst
              (λ b.
                Frames crc32 postcard b (length (pre ++ frame)) fs (length pre + length bytes) x)
              whole
              (subst
                (λ n.
                  Frames crc32 postcard (pre ++ frame ++ (more ++ rest)) (length (pre ++ frame)) fs
                    n x)
                end walk),
        ),
      )
