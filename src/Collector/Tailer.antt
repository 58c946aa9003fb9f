-- ===== src/Collector/Tailer.antt =====
-- collector/log_collector/tailer.rs: new lines of a growing file. A file is its inode and its bytes.
-- What the standard library does is written out: a BufReader fills its buffer of 8 KiB whenever it is
-- empty, and `lines` takes "\n" or "\r\n" off a line. Whether bytes are UTF-8, and the text that they
-- are, is a parameter. The file does not change between its metadata and its read.
pub mod Lines
pub mod Growth
use rpglot.Prelude.{
  ℕ, zero, suc, ◌+◌, ◌-◌, ◌*◌, ◌/◌, Bool, true, false, not, ◌||◌, Option, none, some, List, [], ◌∷◌,
  String, length, drop, ltb, leb, ◌==◌, if◌then◌else◌,
}
use rpglot.Prelude.Bytes.{Bytes}
use rpglot.Prelude.Result.{Result, ok, err, ◌>>=◌}
use rpglot.Prelude.Text.{same_text}

abbrev pub max_lines_per_read : ℕ
max_lines_per_read = 10000

abbrev pub buffer_size : ℕ
buffer_size = 8192

pub record FileTailer : Type 0 where
  pub path : String
  pub offset : ℕ
  pub inode : ℕ

pub data IoError : Type 0 where
  not_found other invalid_data : IoError

pub record LogFile : Type 0 where
  pub file_inode : ℕ
  pub content : Bytes

-- What a path has on the disk: fs::metadata, and the file that opens.
abbrev pub Files : Type 0
Files = String → Result IoError LogFile

unfoldable pub new_tailer : Files → String → Result IoError FileTailer
new_tailer files path = do
  file ← files path
  ok (record { path = path; offset = length file.content; inode = file.file_inode })

-- A line, whether its end was found, and what is behind it.
unfoldable pub next_line : Bytes → Bytes × Bool × Bytes
next_line [] = ([], false, [])
next_line (b ∷ bytes) =
    let rest = next_line bytes in
    if b == 10 then ([], true, bytes) else (b ∷ rest.0, rest.1, rest.2)

-- "\r" at the end
unfoldable pub strip_return : Bytes → Bytes
strip_return [] = []
strip_return (b ∷ []) = if b == 13 then [] else b ∷ []
strip_return (b ∷ c ∷ bytes) = b ∷ strip_return (c ∷ bytes)

abbrev pub line_text : Bytes × Bool × Bytes → Bytes
line_text (line, ended, rest) = if ended then strip_return line else line

-- Where the file stands when `consumed` of its `remaining` bytes have left the buffer.
unfoldable pub stream_position : ℕ → ℕ → ℕ
stream_position consumed remaining =
    let filled = (consumed + buffer_size - 1) / buffer_size * buffer_size in
    if ltb remaining filled then remaining else filled

unfoldable pub add_line :
    Result IoError String
    → Result IoError (List String × Bytes)
    → Result IoError (List String × Bytes)
add_line (err e) more = err e
add_line (ok text) (err e) = err e
add_line (ok text) (ok (lines, rest)) = ok (text ∷ lines, rest)

module _ (from_utf8 : Bytes → Option String) where
  abbrev pub decoded : Bytes → Result IoError String
  decoded line = elim (from_utf8 line) [ none ↦ err invalid_data | some text ↦ ok text ]

  -- At most so many lines, and what is behind them.
  unfoldable pub take_lines : ℕ → Bytes → Result IoError (List String × Bytes)
  take_lines zero bytes = ok ([], bytes)
  take_lines (suc limit) [] = ok ([], [])
  take_lines (suc limit) (b ∷ bytes) =
      let line = next_line (b ∷ bytes) in
      add_line (decoded (line_text line)) (take_lines limit line.2)

  -- The tailer behind the test for a rotation
  unfoldable pub rotated : LogFile → FileTailer → FileTailer
  rotated file t =
      if not (file.file_inode == t.inode) || ltb (length file.content) t.offset
      then record t { inode = file.file_inode; offset = 0 }
      else t

  unfoldable pub read_from :
      LogFile
      → FileTailer
      → Result IoError (List String × Bytes)
      → FileTailer × Result IoError (List String)
  read_from file t (err e) = (t, err e)
  read_from file t (ok (lines, rest)) =
      let remaining = length file.content - t.offset in
      (
        record t { offset = t.offset + stream_position (remaining - length rest) remaining },
        ok lines,
      )

  unfoldable pub read_open_file : LogFile → FileTailer → FileTailer × Result IoError (List String)
  read_open_file file t =
      if leb (length file.content) t.offset
      then (t, ok [])
      else read_from file t (take_lines max_lines_per_read (drop t.offset file.content))

  unfoldable pub read_new_lines : Files → FileTailer → FileTailer × Result IoError (List String)
  read_new_lines files t = elim (files t.path) [
    | err not_found ↦ (t, ok [])
    | err e ↦ (t, err e)
    | ok file ↦ read_open_file file (rotated file t)
  ]

  unfoldable pub switch_file : Files → String → FileTailer → Result IoError FileTailer
  switch_file files new_path t = if same_text new_path t.path then ok t else (do
    file ← files new_path
    ok (record { path = new_path; offset = 0; inode = file.file_inode }))
