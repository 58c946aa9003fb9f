-- ===== src/Collector/Tailer/Growth.antt =====
-- A file that grows in two steps.
use rpglot.Prelude.{
  ℕ, ◌≤◌, true, Option, List, ◌++◌, String, length, length-append, append_assoc, ◌≡◌, refl, sym, ap,
  ◌∙◌, arith,
}
use rpglot.Prelude.Bytes.{Bytes}
use rpglot.Prelude.Result.{ok}
use rpglot.Collector.Tailer.{FileTailer, Files, max_lines_per_read, read_new_lines}
use rpglot.Collector.Tailer.Lines.{is_whole, IsLines, IsLines-append, read_appended}

abbrev pub moved_to : FileTailer → ℕ → FileTailer
moved_to t n = record t { offset = n }

module _ (from_utf8 : Bytes → Option String) where
  -- A file that grows in two steps, at the first to the end of a line, is read in two calls as it is in
  -- one, where every line that was appended decodes as UTF-8: the lines of the two calls are those of
  -- the one, where these are 10000 at most.
  pub two_reads :
      (before after : Files) (t : FileTailer) (old new more : Bytes) (l m : List String)
      → before t.path ≡ ok (record { file_inode = t.inode; content = old ++ new })
      → after t.path ≡ ok (record { file_inode = t.inode; content = (old ++ new) ++ more })
      → t.offset ≡ length old
      → is_whole new ≡ true
      → IsLines from_utf8 l new
      → IsLines from_utf8 m more
      → length (l ++ m) ≤ max_lines_per_read
      → (read_new_lines from_utf8 before t ≡ (moved_to t (length (old ++ new)), ok l))
        × (read_new_lines from_utf8 after (moved_to t (length (old ++ new)))
            ≡ (moved_to t (length ((old ++ new) ++ more)), ok m))
        × (read_new_lines from_utf8 after t
            ≡ (moved_to t (length ((old ++ new) ++ more)), ok (l ++ m)))
  two_reads before after t old new more l m first second offset whole h k limit =
      let sizes = length-append l m in
      let joined : old ++ (new ++ more) ≡ (old ++ new) ++ more = sym (append_assoc old new more) in
      (
        read_appended from_utf8 before t old new l first offset h (omega (arith, sizes, limit)),
        read_appended from_utf8 after (moved_to t (length (old ++ new))) (old ++ new) more m second
            refl k (omega (arith, sizes, limit)),
        read_appended from_utf8 after t old (new ++ more) (l ++ m)
              (second
                ∙ ap (λ b. ok (record { file_inode = t.inode; content = b }))
                    {x = (old ++ new) ++ more} {y = old ++ (new ++ more)} (sym joined))
              offset (IsLines-append from_utf8 l m new more whole h k) limit
            ∙ ap (λ (b : Bytes). (moved_to t (length b), ok (l ++ m))) joined,
      )
