-- ===== src/Tests/Tailer.antt =====
-- A log that grows, and one that grows too fast.
use rpglot.Prelude.{
  ℕ, zero, suc, ◌+◌, ◌-◌, ◌≤◌, ◌<◌, Bool, true, ◌&&◌, Option, none, some, List, [], ◌∷◌, ◌++◌,
  String, length, ltb, ◌≡◌, refl, ap, arith, if◌then◌else◌,
}
use rpglot.Prelude.Bytes.{Bytes}
use rpglot.Prelude.Result.{ok, err}
use rpglot.Collector.Tailer.{
  FileTailer, invalid_data, Files, max_lines_per_read, next_line, strip_return, take_lines,
  add_line, read_new_lines,
}
use rpglot.Collector.Tailer.Growth.{two_reads}
use rpglot.Collector.Tailer.Lines.{IsLines, limit_loses, invalid_stops}

abbrev is_ascii : Bytes → Bool
is_ascii [] = true
is_ascii (b ∷ bytes) = ltb b 128 && is_ascii bytes

-- ASCII only. A text is shown by whether it is empty.
abbrev ascii : Bytes → Option String
ascii [] = some ""
ascii (b ∷ bytes) = if is_ascii (b ∷ bytes) then some "text" else none

abbrev file_of : Bytes → Files
file_of bytes path = ok (record { file_inode = 5; content = bytes })

abbrev tailer : ℕ → FileTailer
tailer offset = record { path = "postgresql.log"; offset = offset; inode = 5 }

-- "old" was read; "a", "b" and an empty line are new.
abbrev old_bytes : Bytes
old_bytes = 111 ∷ 108 ∷ 100 ∷ 10 ∷ []

abbrev new_bytes : Bytes
new_bytes = 97 ∷ 10 ∷ 98 ∷ 13 ∷ 10 ∷ 10 ∷ []

new-IsLines : IsLines ascii ("text" ∷ "text" ∷ "" ∷ []) new_bytes
unfolding next_line strip_return
new-IsLines = (refl, (refl, (refl, tt)))

abbrev more_bytes : Bytes
more_bytes = 99 ∷ 10 ∷ []

more-IsLines : IsLines ascii ("text" ∷ []) more_bytes
unfolding next_line strip_return
more-IsLines = (refl, tt)

two_reads_example :
    (read_new_lines ascii (file_of (old_bytes ++ new_bytes)) (tailer 4)
      ≡ (tailer 10, ok ("text" ∷ "text" ∷ "" ∷ [])))
    × (read_new_lines ascii (file_of ((old_bytes ++ new_bytes) ++ more_bytes)) (tailer 10)
        ≡ (tailer 12, ok ("text" ∷ [])))
    × (read_new_lines ascii (file_of ((old_bytes ++ new_bytes) ++ more_bytes)) (tailer 4)
        ≡ (tailer 12, ok ("text" ∷ "text" ∷ "" ∷ "text" ∷ [])))
two_reads_example =
    two_reads ascii (file_of (old_bytes ++ new_bytes))
      (file_of ((old_bytes ++ new_bytes) ++ more_bytes)) (tailer 4) old_bytes new_bytes more_bytes
      ("text" ∷ "text" ∷ "" ∷ []) ("text" ∷ []) refl refl refl refl new-IsLines more-IsLines
      (omega arith)

-- A byte that is no UTF-8, in a line of its own.
invalid_stops_example :
    read_new_lines ascii (file_of (old_bytes ++ (255 ∷ 10 ∷ []) ++ new_bytes)) (tailer 4)
    ≡ (tailer 4, err invalid_data)
unfolding next_line strip_return
invalid_stops_example =
    invalid_stops ascii (file_of (old_bytes ++ (255 ∷ 10 ∷ []) ++ new_bytes)) (tailer 4) old_bytes
      (255 ∷ 10 ∷ []) new_bytes refl refl refl refl

unfoldable empty_lines : ℕ → Bytes → Bytes
empty_lines zero bytes = bytes
empty_lines (suc n) bytes = 10 ∷ empty_lines n bytes

unfoldable empty_texts : ℕ → List String
empty_texts zero = []
empty_texts (suc n) = "" ∷ empty_texts n

length-empty_lines : (n : ℕ) (bytes : Bytes) → length (empty_lines n bytes) ≡ n + length bytes
unfolding empty_lines
length-empty_lines zero bytes = omega arith
length-empty_lines (suc n) bytes = omega (arith, length-empty_lines n bytes)

empty_taken :
    (n : ℕ) (bytes : Bytes) → take_lines ascii n (empty_lines n bytes) ≡ ok (empty_texts n, bytes)
unfolding take_lines add_line next_line strip_return empty_lines empty_texts
empty_taken zero bytes = refl
empty_taken (suc n) bytes = ap (add_line (ok "")) (empty_taken n bytes)

-- 10001 empty lines at once: the last is lost.
limit_loses_example :
    (after : FileTailer) × (read_new_lines ascii
        (file_of (old_bytes ++ empty_lines max_lines_per_read (10 ∷ [])))
        (tailer 4)
      ≡ (after, ok (empty_texts max_lines_per_read)))
    × (4 + (length (empty_lines max_lines_per_read (10 ∷ [])) - 1) < after.offset)
    × (after.offset ≤ length (old_bytes ++ empty_lines max_lines_per_read (10 ∷ [])))
limit_loses_example =
    limit_loses ascii (file_of (old_bytes ++ empty_lines max_lines_per_read (10 ∷ []))) (tailer 4)
      old_bytes (empty_lines max_lines_per_read (10 ∷ [])) (10 ∷ [])
      (empty_texts max_lines_per_read) refl refl (empty_taken max_lines_per_read (10 ∷ []))
      (omega arith) (omega (arith, length-empty_lines max_lines_per_read (10 ∷ [])))
