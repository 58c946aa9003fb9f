-- ===== src/Collector/Log/Accumulate.antt =====
-- collector/log_collector/mod.rs: accumulate. A result `none` is a panic.
use rpglot.Prelude.{
  ◌+◌, ◌%◌, ◌^◌, false, Option, none, some, List, [], ◌∷◌, ◌++◌, leb, if◌then◌else◌,
}
use rpglot.Model.Log.{PgLogEventEntry}
use rpglot.Collector.Texts.{Chars, and_then, is_empty, len, map_option, trim, truncate, unwrap_or}
use rpglot.Collector.Normalize.Patterns.{max_log_message_len, normalize_error}
use rpglot.Collector.Parser.{
  EventData, ParsedLogLine, checkpoint_starting, checkpoint_complete, slow_query, autovacuum,
  failure, checkpoint, vacuum, slow, statement, detail_context, LogEventKind,
}
use rpglot.Collector.Log.{
  ErrorKey, PendingError, Pending, Runtime, same_key, dict_get, dict_set, max_slow_query_len,
}
use rpglot.Collector.Log.Events.{event_data_to_entry}
use rpglot.Collector.Log.Slow.{one_more_u16, flush_pending_slow_query}

abbrev pub no_error_yet : PendingError
no_error_yet = record { count = 0; sample = []; statement = [] }

-- `count += 1` of a `u32`, and the first sample
abbrev pub counted : PendingError → Chars → PendingError
counted entry sample = record entry {
  count = (entry.count + 1) % 2 ^ 32;
  sample = if is_empty entry.sample then sample else entry.sample;
}

-- The sample is cut only where the entry has none.
unfoldable pub sample_of : PendingError → Chars → Option Chars
unfolding truncate
sample_of entry message =
    if is_empty entry.sample then truncate max_log_message_len message else some []

unfoldable pub add_error : Pending → ErrorKey → Chars → Option Pending
unfolding sample_of dict_set same_key dict_get
add_error p key message =
    map_option
      (λ sample. record p {
        pending_errors =
            dict_set same_key key
              (counted (unwrap_or (dict_get same_key key p.pending_errors) no_error_yet) sample)
              p.pending_errors;
        last_error_key = some key;
        error_held_back = false;
      })
      (sample_of (unwrap_or (dict_get same_key key p.pending_errors) no_error_yet) message)

-- A statement without text keeps the key, for the lines that continue it.
unfoldable pub attached : Pending → ErrorKey → PendingError → Chars → Pending
unfolding trim dict_set same_key
attached p key entry stmt =
    if is_empty (trim stmt)
    then record p { pending_statement_key = some key; last_error_key = none }
    else record p {
      pending_errors = dict_set same_key key (record entry { statement = stmt }) p.pending_errors;
      last_error_key = none;
    }

-- The entry of the last error, where there is one.
unfoldable pub attach_to : Pending → ErrorKey → Chars → Option PendingError → Option Pending
unfolding truncate attached
attach_to p key message none = some (record p { last_error_key = none })
attach_to p key message (some entry) =
    if is_empty entry.statement
    then map_option (attached p key entry) (truncate max_log_message_len message)
    else some (record p { last_error_key = none })

unfoldable pub add_statement : Pending → Option ErrorKey → Chars → Option Pending
unfolding attach_to dict_get same_key
add_statement p none message = some (record p { last_error_key = none })
add_statement p (some key) message =
    attach_to p key message (dict_get same_key key p.pending_errors)

module _ (runtime : Runtime) where
  unfoldable pub push_event : Option EventData → Chars → List PgLogEventEntry → List PgLogEventEntry
  unfolding event_data_to_entry
  push_event none message events = events
  push_event (some event) message events =
      events ++ event_data_to_entry runtime.ops event message ∷ []

  -- What is put in the place of a query that was flushed.
  unfoldable pub start_query : Option EventData → Pending → Option Pending
  unfolding truncate len
  start_query (some (slow_query duration_ms sql)) p =
      map_option
        (λ sql. record p {
          pending_slow_query = some (record {
            duration_ms = duration_ms;
            sql = sql;
            truncated = leb max_slow_query_len (len sql);
          });
        })
        (truncate max_slow_query_len sql)
  start_query (some (checkpoint_starting reason)) p = some p
  start_query (some (checkpoint_complete c)) p = some p
  start_query (some (autovacuum a)) p = some p
  start_query none p = some p

  unfoldable pub accumulate_as : LogEventKind → ParsedLogLine → Pending → Option Pending
  unfolding normalize_error add_error add_statement push_event start_query flush_pending_slow_query
  accumulate_as failure parsed p =
      and_then (normalize_error runtime.to_lowercase parsed.message)
        (λ normalized. add_error p (normalized, parsed.severity) parsed.message)
  accumulate_as statement parsed p = add_statement p p.last_error_key parsed.message
  accumulate_as detail_context parsed p = some p
  accumulate_as checkpoint parsed p = some (record p {
    last_error_key = none;
    pending_checkpoints = one_more_u16 p.pending_checkpoints;
    pending_events = push_event parsed.event_data parsed.message p.pending_events;
  })
  accumulate_as vacuum parsed p = some (record p {
    last_error_key = none;
    pending_autovacuums = one_more_u16 p.pending_autovacuums;
    pending_events = push_event parsed.event_data parsed.message p.pending_events;
  })
  accumulate_as slow parsed p =
      and_then
        (flush_pending_slow_query runtime
          (record p { last_error_key = none; last_event_idx = none }))
        (start_query parsed.event_data)

  unfoldable pub accumulate : ParsedLogLine → Pending → Option Pending
  unfolding accumulate_as
  accumulate parsed p = accumulate_as parsed.event_kind parsed p
