-- ===== src/Collector/Parser/Lines.antt =====
-- collector/log_collector/parser.rs: StderrParser. A result `none` is a panic.
use rpglot.Prelude.{
  ℕ, Bool, false, ◌&&◌, ◌||◌, Option, none, some, String, List, [], ◌∷◌, ◌==◌, leb, if◌then◌else◌,
}
use rpglot.Prelude.Float.{F64, FloatOps}
use rpglot.Prelude.Text.{codes, is_ascii_digit}
use rpglot.Model.Log.{PgLogSeverity, error, fatal, panic}
use rpglot.Collector.Texts.{
  Chars, and_then, or_else, map_option, contains, is_empty, split_at, trim,
}
use rpglot.Collector.Parser.{ParsedLogLine, failure, statement, detail_context, behind}
use rpglot.Collector.Parser.Messages.{classify_log_message}

abbrev pub severities : List (String × PgLogSeverity)
severities =
    ("PANIC:  ", panic)
    ∷ ("FATAL:  ", fatal)
    ∷ ("ERROR:  ", error)
    ∷ ("ПАНИКА:  ", panic)
    ∷ ("ВАЖНО:  ", fatal)
    ∷ ("ОШИБКА:  ", error)
    ∷ []

abbrev pub log_prefixes : List String
log_prefixes = "LOG:  " ∷ "СООБЩЕНИЕ:  " ∷ []

abbrev pub statement_prefixes : List String
statement_prefixes = "STATEMENT:  " ∷ "ОПЕРАТОР:  " ∷ []

abbrev pub detail_context_prefixes : List String
detail_context_prefixes =
    "DETAIL:  " ∷ "CONTEXT:  " ∷ "HINT:  " ∷ "ПОДРОБНОСТИ:  " ∷ "КОНТЕКСТ:  " ∷ "ПОДСКАЗКА:  " ∷ []

abbrev pub is_state_char : ℕ → Bool
is_state_char b = (leb b'A' b && leb b b'Z') || is_ascii_digit b

-- A code of five characters, a colon and two spaces are taken off.
unfoldable pub strip_sqlstate : Chars → Chars
unfolding trim
strip_sqlstate (a ∷ b ∷ c ∷ d ∷ e ∷ f ∷ g ∷ h ∷ rest) =
    if (is_state_char a
        && (is_state_char b && (is_state_char c && (is_state_char d && is_state_char e))))
      && (f == b':' && (g == 32 && h == 32))
    then trim rest
    else a ∷ b ∷ c ∷ d ∷ e ∷ f ∷ g ∷ h ∷ rest
strip_sqlstate message = message

abbrev pub failed_with : PgLogSeverity → Chars → ParsedLogLine
failed_with severity message = record {
  severity = severity;
  message = message;
  event_kind = failure;
  event_data = none;
}

abbrev unless_empty : Chars → Option Chars
unless_empty message = if is_empty message then none else some message

-- The loop over the severities. A keyword with nothing behind it is passed over.
unfoldable pub find_severity : List (String × PgLogSeverity) → Chars → Option ParsedLogLine
unfolding split_at trim strip_sqlstate
find_severity [] line = none
find_severity ((keyword, severity) ∷ more) line =
    or_else
      (map_option (λ message. failed_with severity (strip_sqlstate message))
        (and_then (behind (split_at (codes keyword) line)) (λ rest. unless_empty (trim rest))))
      (find_severity more line)

-- What is behind the first of the prefixes that the line has.
unfoldable pub behind_any : List String → Chars → Option Chars
unfolding split_at
behind_any [] line = none
behind_any (prefix ∷ prefixes) line =
    or_else (behind (split_at (codes prefix) line)) (behind_any prefixes line)

unfoldable pub contains_any : List String → Chars → Bool
unfolding contains
contains_any [] line = false
contains_any (prefix ∷ prefixes) line = contains (codes prefix) line || contains_any prefixes line

abbrev pub no_error : Chars → ParsedLogLine
no_error message = record {
  severity = error;
  message = message;
  event_kind = statement;
  event_data = none;
}

unfoldable pub parse_statement : Chars → Option ParsedLogLine
unfolding behind_any trim contains_any
parse_statement line = elim (behind_any statement_prefixes line) [
  | some message ↦ some (no_error (trim message))
  | none ↦
      if contains_any detail_context_prefixes line
      then some (record {
        severity = error;
        message = [];
        event_kind = detail_context;
        event_data = none;
      })
      else none
]

module _ (ops : FloatOps) (parse_f64 : Chars → Option F64) where
  -- Behind the loop over the severities
  unfoldable pub parse_log : Chars → Option (Option ParsedLogLine)
  unfolding behind_any classify_log_message parse_statement
  parse_log line = elim (behind_any log_prefixes line) [
    | some message ↦ classify_log_message ops parse_f64 message
    | none ↦ some (parse_statement line)
  ]

  unfoldable pub parse_stderr_line : Chars → Option (Option ParsedLogLine)
  unfolding find_severity parse_log
  parse_stderr_line line = elim (find_severity severities line) [
    | some parsed ↦ some (some parsed)
    | none ↦ parse_log line
  ]
