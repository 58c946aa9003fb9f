-- ===== src/Collector/Log/Events.antt =====
-- collector/log_collector/mod.rs: the entries of detailed events, made from a message or patched by the
-- lines that continue it.
use rpglot.Prelude.{ℕ, Option, [], ◌∷◌, String, if◌then◌else◌}
use rpglot.Prelude.Int.{ℤ, pos}
use rpglot.Prelude.Float.{F64, FloatOps, of_nat}
use rpglot.Prelude.Text.{codes}
use rpglot.Model.Log.{PgLogEventEntry, PgLogEventType}
use rpglot.Collector.Texts.{Chars, text_of, trim_start, unwrap_or}
use rpglot.Collector.Parser.{
  EventData, checkpoint_starting, checkpoint_complete, slow_query, autovacuum, extract_i64_after,
  either_i64, either_f64, extract_cpu_field,
}
use rpglot.Collector.Parser.Messages.{starts_with_any}

-- An entry with nothing but a type, a message and a duration.
abbrev pub plain_entry : FloatOps → PgLogEventType → Chars → F64 → ℕ → PgLogEventEntry
plain_entry ops event_type message elapsed_s count = record {
  event_type = event_type;
  message = text_of message;
  table_name = "";
  elapsed_s = elapsed_s;
  extra_num1 = pos 0;
  extra_num2 = pos 0;
  buffer_hits = pos 0;
  buffer_misses = pos 0;
  buffer_dirtied = pos 0;
  avg_read_rate_mbs = of_nat ops 0;
  avg_write_rate_mbs = of_nat ops 0;
  cpu_user_s = of_nat ops 0;
  cpu_system_s = of_nat ops 0;
  wal_records = pos 0;
  wal_fpi = pos 0;
  wal_bytes = pos 0;
  extra_num3 = pos 0;
  count = count;
}

abbrev pub seconds : FloatOps → F64 → F64
seconds ops ms = ops.div ms (of_nat ops 1000)

unfoldable pub event_data_to_entry : FloatOps → EventData → Chars → PgLogEventEntry
unfolding text_of
event_data_to_entry ops (checkpoint_starting reason) message =
    plain_entry ops PgLogEventType.checkpoint_starting message (of_nat ops 0) 0
event_data_to_entry ops (checkpoint_complete c) message = record {
  event_type = PgLogEventType.checkpoint_complete;
  message = text_of message;
  table_name = "";
  elapsed_s = seconds ops c.total_time_ms;
  extra_num1 = c.buffers_written;
  extra_num2 = c.distance_kb;
  buffer_hits = c.sync_files;
  buffer_misses = pos 0;
  buffer_dirtied = pos 0;
  avg_read_rate_mbs = c.longest_sync_s;
  avg_write_rate_mbs = c.average_sync_s;
  cpu_user_s = seconds ops c.write_time_ms;
  cpu_system_s = seconds ops c.sync_time_ms;
  wal_records = c.wal_added;
  wal_fpi = c.wal_removed;
  wal_bytes = c.wal_recycled;
  extra_num3 = c.estimate_kb;
  count = 0;
}
event_data_to_entry ops (autovacuum a) message = record {
  event_type = if a.is_analyze then PgLogEventType.autoanalyze else PgLogEventType.autovacuum;
  message = text_of message;
  table_name = text_of a.table_name;
  elapsed_s = a.elapsed_s;
  extra_num1 = a.tuples_removed;
  extra_num2 = a.pages_removed;
  buffer_hits = a.buffer_hits;
  buffer_misses = a.buffer_misses;
  buffer_dirtied = a.buffer_dirtied;
  avg_read_rate_mbs = a.avg_read_rate_mbs;
  avg_write_rate_mbs = a.avg_write_rate_mbs;
  cpu_user_s = a.cpu_user_s;
  cpu_system_s = a.cpu_system_s;
  wal_records = a.wal_records;
  wal_fpi = a.wal_fpi;
  wal_bytes = a.wal_bytes;
  extra_num3 = pos 0;
  count = 0;
}
event_data_to_entry ops (slow_query duration_ms sql) message =
    plain_entry ops PgLogEventType.slow_query sql (seconds ops duration_ms) 0

module _ (ops : FloatOps) (parse_f64 : Chars → Option F64) where
  abbrev number_of : Chars → String → String → ℤ
  number_of text english russian = either_i64 parse_f64 text (codes english) (codes russian)

  abbrev only : Chars → String → ℤ
  only text marker = unwrap_or (extract_i64_after text (codes marker)) (pos 0)

  -- Behind the tests for buffers, rates and system usage
  unfoldable pub patch_counts : PgLogEventEntry → Chars → PgLogEventEntry
  unfolding starts_with_any extract_i64_after
  patch_counts entry text =
      if starts_with_any ("tuples:" ∷ "кортежей:" ∷ []) text
      then record entry { extra_num1 = number_of text "tuples: " "кортежей: " }
      else if starts_with_any ("pages:" ∷ "страниц:" ∷ []) text
      then record entry { extra_num2 = number_of text "pages: " "страниц: " }
      else if starts_with_any ("WAL usage:" ∷ []) text
      then record entry {
        wal_records = only text "WAL usage: ";
        wal_fpi = only text " records, ";
        wal_bytes = only text " images, ";
      }
      else entry

  unfoldable pub patch_trimmed : PgLogEventEntry → Chars → PgLogEventEntry
  unfolding starts_with_any extract_cpu_field patch_counts
  patch_trimmed entry text =
      if starts_with_any ("buffer usage:" ∷ "буферов:" ∷ []) text
      then record entry {
        buffer_hits = number_of text "buffer usage: " "буферов: ";
        buffer_misses = number_of text " hits, " " попаданий, ";
        buffer_dirtied = number_of text " misses, " " промахов, ";
      }
      else if starts_with_any ("avg read rate:" ∷ "средняя скорость чтения:" ∷ []) text
      then record entry {
        avg_read_rate_mbs =
            either_f64 parse_f64 (of_nat ops 0) text (codes "avg read rate: ")
              (codes "средняя скорость чтения: ");
        avg_write_rate_mbs =
            either_f64 parse_f64 (of_nat ops 0) text (codes "avg write rate: ")
              (codes "средняя скорость записи: ");
      }
      else if starts_with_any ("system usage:" ∷ "системное" ∷ []) text
      then record entry {
        cpu_user_s = extract_cpu_field parse_f64 ops text (codes "user: ");
        cpu_system_s = extract_cpu_field parse_f64 ops text (codes "system: ");
        elapsed_s =
            either_f64 parse_f64 entry.elapsed_s text (codes "elapsed: ") (codes "прошло: ");
      }
      else patch_counts entry text

  unfoldable pub patch_event_from_continuation : PgLogEventEntry → Chars → PgLogEventEntry
  unfolding patch_trimmed trim_start
  patch_event_from_continuation entry line = patch_trimmed entry (trim_start line)
