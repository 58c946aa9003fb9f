-- ===== src/Collector/Tailer/Lines.antt =====
-- What read_new_lines reads, and what it leaves out.
use rpglot.Prelude.{
  ℕ, zero, suc, ◌+◌, ◌-◌, ◌%◌, ◌≤◌, ◌<◌, Bool, true, false, Option, none, some, List, [], ◌∷◌, ◌++◌,
  String, length, drop, drop_left, length-append, leb, ◌==◌, ◌≡◌, ◌≢◌, refl, sym, ap, ◌∙◌, subst,
  arith, Bool-cases, inl, inr,
}
use rpglot.Prelude.Bytes.{Bytes}
use rpglot.Prelude.Result.{ok, err}
use rpglot.Collector.Tailer.{
  FileTailer, invalid_data, LogFile, Files, max_lines_per_read, buffer_size, next_line, line_text,
  stream_position, add_line, decoded, take_lines, rotated, read_from, read_open_file,
  read_new_lines,
}

-- The bytes are empty or end with the end of a line.
abbrev pub is_whole : Bytes → Bool
is_whole [] = true
is_whole (b ∷ []) = b == 10
is_whole (b ∷ c ∷ bytes) = is_whole (c ∷ bytes)

next_line-whole :
    (b : ℕ) (bytes : Bytes)
    → is_whole (b ∷ bytes) ≡ true
    → ((next_line (b ∷ bytes)).1 ≡ true) × (is_whole (next_line (b ∷ bytes)).2 ≡ true)
unfolding next_line
next_line-whole b [] h = ground (arith, h)
next_line-whole b (c ∷ bytes) h = elim (Bool-cases (b == 10)) [
  | inl end ↦ rw end (refl, h)
  | inr more ↦ rw more (next_line-whole c bytes h)
]

next_line-append :
    (xs ys : Bytes)
    → (next_line xs).1 ≡ true
    → next_line (xs ++ ys) ≡ ((next_line xs).0, true, (next_line xs).2 ++ ys)
unfolding next_line
next_line-append [] ys h = cc
next_line-append (b ∷ xs) ys h = elim (Bool-cases (b == 10)) [
  | inl end ↦ rw end refl
  | inr more ↦
      let found : (next_line xs).1 ≡ true = rw more at h in
      let ih = next_line-append xs ys found in
      rw more (ap (λ (l : Bytes × Bool × Bytes). (b ∷ l.0, l.1, l.2)) ih)
]

next_line-inside : (xs : Bytes) → (next_line xs).1 ≡ true → 0 < length xs
unfolding next_line
next_line-inside [] h = cc
next_line-inside (b ∷ xs) h = omega arith

module _ (from_utf8 : Bytes → Option String) where
  -- The lines of some bytes.
  abbrev pub IsLines : List String → Bytes → Type 0
  IsLines [] [] = Unit
  IsLines [] (b ∷ bytes) = ⊥
  IsLines (l ∷ lines) [] = ⊥
  IsLines (l ∷ lines) (b ∷ bytes) =
      (from_utf8 (line_text (next_line (b ∷ bytes))) ≡ some l)
      × IsLines lines (next_line (b ∷ bytes)).2

  decoded-some :
      (line : Bytes) (l : String) → from_utf8 line ≡ some l → decoded from_utf8 line ≡ ok l
  decoded-some line l h = rw (h, decoded) refl

  decoded-none : (line : Bytes) → from_utf8 line ≡ none → decoded from_utf8 line ≡ err invalid_data
  decoded-none line h = rw (h, decoded) refl

  take-IsLines :
      (lines : List String) (bytes : Bytes) (limit : ℕ)
      → IsLines lines bytes
      → length lines ≤ limit
      → take_lines from_utf8 limit bytes ≡ ok (lines, [])
  unfolding take_lines add_line
  take-IsLines [] [] zero h n = refl
  take-IsLines [] [] (suc limit) h n = refl
  take-IsLines [] (b ∷ bytes) limit h n = absurd h
  take-IsLines (l ∷ lines) [] limit h n = absurd h
  take-IsLines (l ∷ lines) (b ∷ bytes) zero h n = absurd (omega arith)
  take-IsLines (l ∷ lines) (b ∷ bytes) (suc limit) (text, rest) n =
      let more = take_lines from_utf8 limit (next_line (b ∷ bytes)).2 in
      ap (λ r. add_line r more) (decoded-some (line_text (next_line (b ∷ bytes))) l text)
      ∙ ap (add_line (ok l)) (take-IsLines lines (next_line (b ∷ bytes)).2 limit rest (omega arith))

  pub IsLines-append :
      (l m : List String) (xs ys : Bytes)
      → is_whole xs ≡ true
      → IsLines l xs
      → IsLines m ys
      → IsLines (l ++ m) (xs ++ ys)
  IsLines-append [] m [] ys whole h k = k
  IsLines-append [] m (b ∷ xs) ys whole h k = absurd h
  IsLines-append (t ∷ l) m [] ys whole h k = absurd h
  IsLines-append (t ∷ l) m (b ∷ xs) ys whole (text, rest) k =
      let (ended, after) = next_line-whole b xs whole in
      let same = next_line-append (b ∷ xs) ys ended in
      let ih = IsLines-append l m (next_line (b ∷ xs)).2 ys after rest k in
      (
        ap (λ (n : Bytes × Bool × Bytes). from_utf8 (line_text n)) same ∙ (rw ended at text),
        subst (IsLines (l ++ m)) (sym (ap (λ (n : Bytes × Bool × Bytes). n.2) same)) ih,
      )

  rotated_same :
      (file : LogFile) (t : FileTailer)
      → file.file_inode ≡ t.inode
      → t.offset ≤ length file.content
      → rotated from_utf8 file t ≡ t
  unfolding rotated
  rotated_same file t inode size = ground arith

  stream_position_end : (n : ℕ) → stream_position (n - 0) n ≡ n
  unfolding stream_position
  stream_position_end n = ground arith

  read_open :
      (t : FileTailer) (old new : Bytes) (file : LogFile) (lines : List String) (rest : Bytes)
      → file.content ≡ old ++ new
      → t.offset ≡ length old
      → 0 < length new
      → take_lines from_utf8 max_lines_per_read new ≡ ok (lines, rest)
      → read_open_file from_utf8 file t ≡ (
        record t { offset = t.offset + stream_position (length new - length rest) (length new) },
        ok lines,
      )
  unfolding read_open_file read_from
  read_open t old new file lines rest content offset some_bytes taken =
      let size : length file.content ≡ length old + length new =
        ap length content ∙ length-append old new in
      let left : length file.content - t.offset ≡ length new = omega (arith, size, offset) in
      let tail : drop t.offset file.content ≡ new =
        ap (drop t.offset) content ∙ drop_left t.offset old new offset in
      let more : leb (length file.content) t.offset ≡ false = ground (arith, size, offset) in
      rw (more, tail, taken, left) refl

  open_appended :
      (t : FileTailer) (old new : Bytes) (file : LogFile) (lines : List String)
      → file.content ≡ old ++ new
      → t.offset ≡ length old
      → IsLines lines new
      → length lines ≤ max_lines_per_read
      → read_open_file from_utf8 file t ≡ (record t { offset = length (old ++ new) }, ok lines)
  unfolding read_open_file
  open_appended t old [] file (l ∷ lines) content offset h limit = absurd h
  open_appended t old [] file [] content offset h limit =
      let size : length file.content ≡ length (old ++ []) = ap length content in
      let plain = length-append old [] in
      let done : leb (length file.content) t.offset ≡ true = ground (arith, size, plain, offset) in
      rw done (
        ap (λ (n : ℕ). (record t { offset = n }, ok [])) {x = t.offset} {y = length (old ++ [])}
          (omega (arith, plain, offset)))
  open_appended t old (b ∷ bytes) file lines content offset h limit =
      let n = length (b ∷ bytes) in
      read_open t old (b ∷ bytes) file lines [] content offset (omega arith)
        (take-IsLines lines (b ∷ bytes) max_lines_per_read h limit)
      ∙ ap (λ (k : ℕ). (record t { offset = k }, ok lines))
          {x = t.offset + stream_position (n - 0) n} {y = length (old ++ b ∷ bytes)}
          (omega (arith, stream_position_end n, length-append old (b ∷ bytes), offset))

  -- A read of a file that was not rotated gives the lines that were appended since the last read, and
  -- goes to the end of the file, where there are 10000 lines at most.
  pub read_appended :
      (files : Files) (t : FileTailer) (old new : Bytes) (lines : List String)
      → files t.path ≡ ok (record { file_inode = t.inode; content = old ++ new })
      → t.offset ≡ length old
      → IsLines lines new
      → length lines ≤ max_lines_per_read
      → read_new_lines from_utf8 files t ≡ (record t { offset = length (old ++ new) }, ok lines)
  unfolding read_new_lines
  read_appended files t old new lines found offset h limit =
      let file : LogFile = record { file_inode = t.inode; content = old ++ new } in
      rw (found, read_new_lines)
        (ap (read_open_file from_utf8 file)
            (rotated_same file t refl (omega (arith, offset, length-append old new)))
          ∙ open_appended t old new file lines refl offset h limit)

  -- Where more than 10000 lines were appended, and what was read of them does not fill the buffer just
  -- so, the next read begins behind bytes that no read has given: they are lost.
  pub limit_loses :
      (files : Files) (t : FileTailer) (old new rest : Bytes) (lines : List String)
      → files t.path ≡ ok (record { file_inode = t.inode; content = old ++ new })
      → t.offset ≡ length old
      → take_lines from_utf8 max_lines_per_read new ≡ ok (lines, rest)
      → 0 < length rest
      → (length new - length rest) % buffer_size ≢ 0
      → (after : FileTailer) × (read_new_lines from_utf8 files t ≡ (after, ok lines))
        × (t.offset + (length new - length rest) < after.offset)
        × (after.offset ≤ length (old ++ new))
  unfolding stream_position read_new_lines
  limit_loses files t old new rest lines found offset taken more odd =
      let file : LogFile = record { file_inode = t.inode; content = old ++ new } in
      let size = length-append old new in
      (
        record t { offset = t.offset + stream_position (length new - length rest) (length new) },
        rw (found, read_new_lines)
            (ap (read_open_file from_utf8 file)
                (rotated_same file t refl (omega (arith, offset, size)))
              ∙ read_open t old new file lines rest refl offset (ground arith) taken),
        ground arith,
        ground (arith, size, offset),
      )

  take_invalid :
      (bytes : Bytes)
      → 0 < length bytes
      → from_utf8 (line_text (next_line bytes)) ≡ none
      → take_lines from_utf8 max_lines_per_read bytes ≡ err invalid_data
  unfolding take_lines add_line
  take_invalid [] h bad = absurd (omega arith)
  take_invalid (b ∷ bytes) h bad =
      let more = take_lines from_utf8 9999 (next_line (b ∷ bytes)).2 in
      ap (λ r. add_line r more) (decoded-none (line_text (next_line (b ∷ bytes))) bad)

  -- A first line that is not UTF-8 stops the tailer: every read of the file is an error that leaves it
  -- where it is, whatever is appended.
  pub invalid_stops :
      (files : Files) (t : FileTailer) (old new more : Bytes)
      → files t.path ≡ ok (record { file_inode = t.inode; content = old ++ (new ++ more) })
      → t.offset ≡ length old
      → (next_line new).1 ≡ true
      → from_utf8 (line_text (next_line new)) ≡ none
      → read_new_lines from_utf8 files t ≡ (t, err invalid_data)
  unfolding read_open_file read_from read_new_lines
  invalid_stops files t old new more found offset ended bad =
      let file : LogFile = record { file_inode = t.inode; content = old ++ (new ++ more) } in
      let size = length-append old (new ++ more) in
      let behind = length-append new more in
      let some_bytes = next_line-inside new ended in
      let same : from_utf8 (line_text (next_line (new ++ more))) ≡ none =
        ap (λ (n : Bytes × Bool × Bytes). from_utf8 (line_text n)) (next_line-append new more ended)
        ∙ (rw ended at bad) in
      let unread : leb (length file.content) t.offset ≡ false =
        ground (arith, size, behind, offset, some_bytes) in
      let tail : drop t.offset file.content ≡ new ++ more =
        drop_left t.offset old (new ++ more) offset in
      let stopped : take_lines from_utf8 max_lines_per_read (new ++ more) ≡ err invalid_data =
        take_invalid (new ++ more) (omega (arith, behind, some_bytes)) same in
      let opened : read_open_file from_utf8 file t ≡ (t, err invalid_data) =
        rw (unread, tail, stopped) refl in
      rw (found, read_new_lines)
        (ap (read_open_file from_utf8 file) (rotated_same file t refl (omega (arith, offset, size)))
          ∙ opened)
