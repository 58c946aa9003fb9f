-- ===== src/Collector/Parser/Csv.antt =====
-- collector/log_collector/parser.rs: split_csv_line and CsvlogParser. A result `none` of the parser is a
-- panic.
use rpglot.Prelude.{
  ℕ, Option, none, some, List, [], ◌∷◌, ◌++◌, ◌≡◌, refl, ap, length, ltb, ◌==◌, get_elem?,
  Bool-cases, inl, inr, append-nil, if◌then◌else◌,
}
use rpglot.Prelude.Float.{F64, FloatOps}
use rpglot.Prelude.Text.{codes}
use rpglot.Model.Log.{PgLogSeverity, error, fatal, panic}
use rpglot.Collector.Texts.{Chars, is_empty, same_chars, unwrap_or}
use rpglot.Collector.Parser.{ParsedLogLine}
use rpglot.Collector.Parser.Lines.{failed_with}
use rpglot.Collector.Parser.Messages.{classify_log_message}

-- Outside quotes, inside them, and behind a quote that was met inside: another one there is a character
-- of the field.
pub data Quoting : Type 0 where
  plain quoted closing : Quoting

abbrev push : ℕ → List Chars → List Chars
push c [] = (c ∷ []) ∷ []
push c (field ∷ fields) = (c ∷ field) ∷ fields

-- The fields from here on, the first without what it already has.
unfoldable pub csv_fields : Quoting → Chars → List Chars
csv_fields state [] = [] ∷ []
csv_fields plain (c ∷ s) =
    let opened = csv_fields quoted s in
    let rest = csv_fields plain s in
    if c == b'"' then opened else if c == b',' then [] ∷ rest else push c rest
csv_fields quoted (c ∷ s) =
    let met = csv_fields closing s in
    let rest = csv_fields quoted s in if c == b'"' then met else push c rest
csv_fields closing (c ∷ s) =
    let opened = csv_fields quoted s in
    let rest = csv_fields plain s in
    if c == b'"' then push c opened else if c == b',' then [] ∷ rest else push c rest

unfoldable pub split_csv_line : Chars → List Chars
unfolding csv_fields
split_csv_line line = csv_fields plain line

unfoldable pub csv_severity : Chars → Option PgLogSeverity
unfolding same_chars
csv_severity text =
    if same_chars text (codes "ERROR")
    then some error
    else if same_chars text (codes "FATAL")
    then some fatal
    else if same_chars text (codes "PANIC")
    then some panic
    else none

abbrev field_at : ℕ → List Chars → Chars
field_at i fields = unwrap_or (get_elem? fields i) []

abbrev csv_failure : Chars → Option PgLogSeverity → Option ParsedLogLine
csv_failure message none = none
csv_failure message (some severity) =
    if is_empty message then none else some (failed_with severity message)

module _ (ops : FloatOps) (parse_f64 : Chars → Option F64) where
  unfoldable pub parse_csv_fields : List Chars → Option (Option ParsedLogLine)
  unfolding csv_severity classify_log_message same_chars
  parse_csv_fields fields =
      if ltb (length fields) 14
      then some none
      else if same_chars (field_at 11 fields) (codes "LOG")
      then classify_log_message ops parse_f64 (field_at 13 fields)
      else some (csv_failure (field_at 13 fields) (csv_severity (field_at 11 fields)))

  unfoldable pub parse_csv_line : Chars → Option (Option ParsedLogLine)
  unfolding split_csv_line parse_csv_fields
  parse_csv_line line = parse_csv_fields (split_csv_line line)

-- How PostgreSQL writes a field: between quotes, a quote inside twice.
unfoldable pub escape : Chars → Chars
escape [] = []
escape (c ∷ s) = let rest = escape s in if c == b'"' then c ∷ c ∷ rest else c ∷ rest

unfoldable pub write_line : Chars → List Chars → Chars
unfolding escape
write_line field [] = b'"' ∷ (escape field ++ b'"' ∷ [])
write_line field (next ∷ more) = b'"' ∷ (escape field ++ b'"' ∷ b',' ∷ write_line next more)

push_all : Chars → List Chars → List Chars
push_all [] fields = fields
push_all (c ∷ s) fields = push c (push_all s fields)

push_all-cons :
    (s field : Chars) (fields : List Chars) → push_all s (field ∷ fields) ≡ (s ++ field) ∷ fields
unfolding push_all
push_all-cons [] field fields = refl
push_all-cons (c ∷ s) field fields = rw (push_all-cons s field fields) refl

csv_fields-escape :
    (s rest : Chars)
    → csv_fields quoted (escape s ++ b'"' ∷ rest) ≡ push_all s (csv_fields closing rest)
unfolding csv_fields escape push_all
csv_fields-escape [] rest = refl
csv_fields-escape (c ∷ s) rest = elim (Bool-cases (c == b'"')) [
  | inl quote ↦ rw quote (rw quote (ap (push c) (csv_fields-escape s rest)))
  | inr other ↦ rw other (rw other (ap (push c) (csv_fields-escape s rest)))
]

-- A line of fields that are all between quotes is split into the fields, whatever characters they have.
pub split-write_line :
    (field : Chars) (more : List Chars) → split_csv_line (write_line field more) ≡ field ∷ more
unfolding split_csv_line write_line csv_fields
split-write_line field [] =
    rw (csv_fields-escape field [], push_all-cons field [] []) (ap (λ f. f ∷ []) (append-nil field))
split-write_line field (next ∷ more) =
    let rest : csv_fields plain (write_line next more) ≡ next ∷ more = split-write_line next more in
    rw (csv_fields-escape field (b',' ∷ write_line next more)) (
      rw rest
        (rw (push_all-cons field [] (next ∷ more)) (ap (λ f. f ∷ next ∷ more) (append-nil field))))
