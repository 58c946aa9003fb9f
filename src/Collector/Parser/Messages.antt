-- ===== src/Collector/Parser/Messages.antt =====
-- collector/log_collector/parser.rs: classify_log_message, and what it takes out of a message. A result
-- `none` is a panic.
use rpglot.Prelude.{
  Bool, true, false, ◌||◌, Option, none, some, String, List, [], ◌∷◌, if◌then◌else◌,
}
use rpglot.Prelude.Int.{ℤ, pos}
use rpglot.Prelude.Float.{F64, FloatOps, of_nat}
use rpglot.Prelude.Text.{codes, is_prefix}
use rpglot.Model.Log.{error}
use rpglot.Collector.Texts.{
  Chars, and_then, or_else, unwrap_or, map_option, contains, strip_prefix, split_at, trim,
}
use rpglot.Collector.Parser.{
  EventData, CheckpointComplete, ParsedLogLine, LogEventKind, checkpoint, vacuum, slow,
  checkpoint_starting, checkpoint_complete, autovacuum, slow_query, extract_i64_after,
  extract_trailing_i64, extract_quoted_string, either_i64, either_f64, extract_cpu_field,
}

-- Whether a text starts with one of the prefixes.
unfoldable pub starts_with_any : List String → Chars → Bool
starts_with_any [] message = false
starts_with_any (prefix ∷ prefixes) message =
    is_prefix (codes prefix) message || starts_with_any prefixes message

abbrev pub checkpoint_starting_prefixes : List String
checkpoint_starting_prefixes = "checkpoint starting:" ∷ "начата контрольная точка:" ∷ []

abbrev pub checkpoint_complete_prefixes : List String
checkpoint_complete_prefixes = "checkpoint complete:" ∷ "контрольная точка завершена:" ∷ []

abbrev pub vacuum_prefixes : List String
vacuum_prefixes = "automatic vacuum of table" ∷ "автоматическая очистка таблицы" ∷ []

abbrev pub analyze_prefixes : List String
analyze_prefixes = "automatic analyze of table" ∷ "автоматический анализ таблицы" ∷ []

-- Added, removed and recycled WAL files
unfoldable pub parse_wal_files : Chars → Option (ℤ × ℤ × ℤ)
unfolding extract_i64_after extract_trailing_i64 contains split_at
parse_wal_files message = elim (split_at (codes " WAL file") message) [
  | some (before, rest) ↦
      map_option
        (λ (added : Option ℤ). (
          unwrap_or added (pos 0),
          unwrap_or (extract_i64_after message (codes "added, ")) (pos 0),
          unwrap_or (extract_i64_after message (codes "removed, ")) (pos 0),
        ))
        (extract_trailing_i64 before)
  | none ↦
      if contains (codes "добавлено файлов WAL:") message
      then some (
        unwrap_or (extract_i64_after message (codes "добавлено файлов WAL: ")) (pos 0),
        unwrap_or (extract_i64_after message (codes "удалено: ")) (pos 0),
        unwrap_or (extract_i64_after message (codes "переработано: ")) (pos 0),
      )
      else some (pos 0, pos 0, pos 0)
]

-- The first of the prefixes that the message has, and what is behind it.
unfoldable pub strip_any : List String → Chars → Option Chars
unfolding strip_prefix
strip_any [] message = none
strip_any (prefix ∷ prefixes) message =
    or_else (strip_prefix (codes prefix) message) (strip_any prefixes message)

module _ (ops : FloatOps) (parse_f64 : Chars → Option F64) where
  abbrev float_of : Chars → String → String → F64
  float_of message english russian =
      either_f64 parse_f64 (of_nat ops 0) message (codes english) (codes russian)

  abbrev thousand : F64 → F64
  thousand x = ops.mul x (of_nat ops 1000)

  unfoldable pub checkpoint_of : Chars → ℤ × ℤ × ℤ → CheckpointComplete
  checkpoint_of message (added, removed, recycled) = record {
    buffers_written = either_i64 parse_f64 message (codes "wrote ") (codes "записано буферов: ");
    write_time_ms = thousand (float_of message "write=" "запись=");
    sync_time_ms = thousand (float_of message "sync=" "синхронизация=");
    total_time_ms = thousand (float_of message "total=" "всего=");
    distance_kb = either_i64 parse_f64 message (codes "distance=") (codes "расстояние=");
    estimate_kb = either_i64 parse_f64 message (codes "estimate=") (codes "ожидалось=");
    wal_added = added;
    wal_removed = removed;
    wal_recycled = recycled;
    sync_files =
        either_i64 parse_f64 message (codes "sync files=") (codes "синхронизировано файлов: ");
    longest_sync_s = float_of message "longest=" "самый долгий: ";
    average_sync_s = float_of message "average=" "средний: ";
  }

  unfoldable pub parse_checkpoint_complete : Chars → Option EventData
  unfolding parse_wal_files checkpoint_of
  parse_checkpoint_complete message =
      map_option (λ (files : ℤ × ℤ × ℤ). checkpoint_complete (checkpoint_of message files))
        (parse_wal_files message)

  abbrev unless : Bool → ℤ → ℤ
  unless is_analyze n = if is_analyze then pos 0 else n

  abbrev with_wal : Chars → String → ℤ
  with_wal message marker =
      if contains (codes "WAL usage:") message
      then unwrap_or (extract_i64_after message (codes marker)) (pos 0)
      else pos 0

  unfoldable pub parse_autovacuum : Chars → Bool → EventData
  unfolding extract_quoted_string extract_cpu_field
  parse_autovacuum message is_analyze = autovacuum (record {
    table_name = unwrap_or (extract_quoted_string message) [];
    is_analyze = is_analyze;
    tuples_removed =
        unless is_analyze (either_i64 parse_f64 message (codes "tuples: ") (codes "кортежей: "));
    pages_removed =
        unless is_analyze (either_i64 parse_f64 message (codes "pages: ") (codes "страниц: "));
    elapsed_s = float_of message "elapsed: " "прошло: ";
    buffer_hits = either_i64 parse_f64 message (codes "buffer usage: ") (codes "буферов: ");
    buffer_misses = either_i64 parse_f64 message (codes " hits, ") (codes " попаданий, ");
    buffer_dirtied = either_i64 parse_f64 message (codes " misses, ") (codes " промахов, ");
    avg_read_rate_mbs = float_of message "avg read rate: " "средняя скорость чтения: ";
    avg_write_rate_mbs = float_of message "avg write rate: " "средняя скорость записи: ";
    cpu_user_s = extract_cpu_field parse_f64 ops message (codes "user: ");
    cpu_system_s = extract_cpu_field parse_f64 ops message (codes "system: ");
    wal_records = unwrap_or (extract_i64_after message (codes "WAL usage: ")) (pos 0);
    wal_fpi = with_wal message " records, ";
    wal_bytes = with_wal message " images, ";
  })

  abbrev found : Chars → LogEventKind → EventData → ParsedLogLine
  found message kind event = record {
    severity = error;
    message = message;
    event_kind = kind;
    event_data = some event;
  }

  -- One row of DURATION_PREFIXES.
  unfoldable pub slow_query_of : String × String → Chars → Option ParsedLogLine
  unfolding strip_prefix split_at
  slow_query_of (prefix, marker) message = and_then (strip_prefix (codes prefix) message) (λ rest.
      and_then (split_at (codes marker) rest) (λ parts.
        map_option (λ duration_ms. found message slow (slow_query duration_ms parts.1))
          (parse_f64 parts.0)))

  unfoldable pub parse_slow_query : Chars → Option ParsedLogLine
  unfolding slow_query_of
  parse_slow_query message =
      or_else (slow_query_of ("duration: ", " ms  statement: ") message)
        (slow_query_of ("продолжительность: ", " мс  оператор: ") message)

  -- Behind the tests for checkpoints
  unfoldable pub classify_vacuum : Chars → Option ParsedLogLine
  unfolding starts_with_any parse_autovacuum parse_slow_query
  classify_vacuum message =
      if starts_with_any vacuum_prefixes message
      then some (found message vacuum (parse_autovacuum message false))
      else if starts_with_any analyze_prefixes message
      then some (found message vacuum (parse_autovacuum message true))
      else parse_slow_query message

  unfoldable pub classify_complete : Chars → Option (Option ParsedLogLine)
  unfolding starts_with_any parse_checkpoint_complete classify_vacuum
  classify_complete message =
      if starts_with_any checkpoint_complete_prefixes message
      then map_option (λ event. some (found message checkpoint event))
          (parse_checkpoint_complete message)
      else some (classify_vacuum message)

  unfoldable pub classify_log_message : Chars → Option (Option ParsedLogLine)
  unfolding strip_any classify_complete
  classify_log_message message = elim (strip_any checkpoint_starting_prefixes message) [
    | some rest ↦ some (some (found message checkpoint (checkpoint_starting (trim rest))))
    | none ↦ classify_complete message
  ]
