-- ===== src/Collector/Log/Collect.antt =====
-- collector/log_collector/mod.rs: `collect` from the lines that were read on, and the collector with its
-- files and settings. A result `none` is a panic.
use rpglot.Prelude.{
  ℕ, suc, ◌+◌, ◌-◌, Bool, true, false, ◌||◌, Option, none, some, List, [], ◌∷◌, ◌++◌, map, leb, ltb,
  ◌==◌, if◌then◌else◌,
}
use rpglot.Model.Log.{PgLogEntry, PgLogEventEntry, PgLogEventType}
use rpglot.Storage.Interner.{StringInterner}
use rpglot.Collector.Texts.{Chars, and_then, is_empty, len, map_option, trim, truncate}
use rpglot.Collector.Normalize.Patterns.{max_log_message_len}
use rpglot.Collector.Parser.{
  ParsedLogLine, LogEventKind, checkpoint, vacuum, failure, slow, statement, detail_context,
}
use rpglot.Collector.Parser.Lines.{parse_stderr_line}
use rpglot.Collector.Parser.Csv.{parse_csv_line}
use rpglot.Collector.Log.{
  ErrorKey, PendingError, PendingSlowQuery, GroupedSlowQuery, Pending, Runtime, LogFormat, stderr,
  csvlog, same_key, dict_get, dict_set, max_slow_query_len,
}
use rpglot.Collector.Log.Events.{plain_entry, patch_event_from_continuation}
use rpglot.Collector.Log.Slow.{flush_pending_slow_query}
use rpglot.Collector.Log.Accumulate.{accumulate}
use rpglot.Collector.Log.Drain.{drain_pending, Drained}

pub record LogCollectResult : Type 0 where
  pub errors : List PgLogEntry
  pub checkpoint_count : ℕ
  pub autovacuum_count : ℕ
  pub slow_query_count : ℕ
  pub events : List PgLogEventEntry

unfoldable pub is_continuation_line : Chars → Bool
is_continuation_line [] = false
is_continuation_line (c ∷ line) = c == 9 || c == 32

-- `push(' ')` where there is text, then the text
abbrev pub joined : Chars → Chars → Chars
joined text more = if is_empty text then more else text ++ 32 ∷ more

unfoldable pub continue_statement : ErrorKey → Chars → Option PendingError → Pending → Pending
unfolding dict_set same_key len
continue_statement key trimmed none p = p
continue_statement key trimmed (some entry) p =
    if leb (len entry.statement + 1 + len trimmed) max_log_message_len
    then record p {
      pending_errors =
          dict_set same_key key (record entry { statement = joined entry.statement trimmed })
            p.pending_errors;
    }
    else p

-- What a query is after another line of it.
unfoldable pub continue_query : PendingSlowQuery → Chars → Option PendingSlowQuery
unfolding len truncate
continue_query query trimmed =
    if query.truncated
    then some query
    else if ltb max_slow_query_len (len query.sql + 1 + len trimmed)
    then map_option (λ sql. record query { sql = sql; truncated = true })
        (truncate max_slow_query_len query.sql)
    else some (record query { sql = query.sql ++ 32 ∷ trimmed })

-- `get_mut(idx)`, and the entry changed
unfoldable pub change_at : {A : Type 0} → ℕ → (A → A) → List A → List A
change_at i f [] = []
change_at i f (a ∷ items) =
    let rest = change_at (i - 1) f items in if i == 0 then f a ∷ items else a ∷ rest

-- `len() - 1`, which panics where there is nothing
unfoldable pub last_index : {A : Type 0} → List A → Option ℕ
last_index [] = none
last_index (a ∷ []) = some 0
last_index (a ∷ b ∷ items) = map_option suc (last_index (b ∷ items))

unfoldable pub will_have_continuations : LogEventKind → Bool
will_have_continuations checkpoint = true
will_have_continuations vacuum = true
will_have_continuations failure = false
will_have_continuations slow = false
will_have_continuations statement = false
will_have_continuations detail_context = false

abbrev pub Collected : Type 0
Collected = LogCollectResult × StringInterner × Pending

module _ (runtime : Runtime) where
  unfoldable pub continue_event : Option ℕ → Chars → Pending → Pending
  unfolding change_at patch_event_from_continuation
  continue_event none line p = p
  continue_event (some idx) line p = record p {
    pending_events =
        change_at idx
          (λ entry. patch_event_from_continuation runtime.ops runtime.parse_f64 entry line)
          p.pending_events;
  }

  unfoldable pub continue_last : Option PendingSlowQuery → Chars → Pending → Option Pending
  unfolding trim continue_query continue_event
  continue_last none line p = some (continue_event p.last_event_idx line p)
  continue_last (some query) line p =
      map_option (λ next. record p { pending_slow_query = some next })
        (continue_query query (trim line))

  -- A continuation line goes to the statement that is waited for, else to the slow query, else to the
  -- last event.
  unfoldable pub continue_line : Option ErrorKey → Chars → Pending → Option Pending
  unfolding continue_statement trim dict_get same_key continue_last
  continue_line (some key) line p =
      some (continue_statement key (trim line) (dict_get same_key key p.pending_errors) p)
  continue_line none line p = continue_last p.pending_slow_query line p

  unfoldable pub parse_line : Option LogFormat → Chars → Option (Option ParsedLogLine)
  unfolding parse_stderr_line parse_csv_line
  parse_line (some stderr) line = parse_stderr_line runtime.ops runtime.parse_f64 line
  parse_line (some csvlog) line = parse_csv_line runtime.ops runtime.parse_f64 line
  parse_line none line = some none

  unfoldable pub note_event : Bool → Pending → Option Pending
  unfolding last_index
  note_event false p = some p
  note_event true p =
      map_option (λ idx. record p { last_event_idx = some idx }) (last_index p.pending_events)

  unfoldable pub accumulate_line : Option ParsedLogLine → Pending → Option Pending
  unfolding accumulate will_have_continuations note_event
  accumulate_line none p = some (record p { last_error_key = none })
  accumulate_line (some parsed) p =
      and_then (accumulate runtime parsed p)
        (note_event (will_have_continuations parsed.event_kind))

  unfoldable pub primary_line : Option LogFormat → Chars → Pending → Option Pending
  unfolding flush_pending_slow_query parse_line accumulate_line
  primary_line format line p = and_then (flush_pending_slow_query runtime p) (λ flushed.
      and_then (parse_line format line) (λ parsed.
        accumulate_line parsed
          (record flushed { pending_statement_key = none; last_event_idx = none })))

  -- One round of the loop over the lines
  unfoldable pub take_line : Option LogFormat → Chars → Pending → Option Pending
  unfolding is_continuation_line continue_line primary_line
  take_line format line p =
      if is_continuation_line line
      then continue_line p.pending_statement_key line p
      else primary_line format line p

  unfoldable pub take_all : Option LogFormat → List Chars → Pending → Option Pending
  unfolding take_line
  take_all format [] p = some p
  take_all format (line ∷ lines) p = and_then (take_line format line p) (take_all format lines)

  abbrev pub slow_event : Chars × GroupedSlowQuery → PgLogEventEntry
  slow_event (pattern, group) =
      plain_entry runtime.ops PgLogEventType.slow_query group.sample_sql group.max_elapsed_s
        group.count

  -- What is given out, and what stays for the next snapshot.
  unfoldable pub give_out : Drained → Collected
  give_out (errors, interner, p) = (
    record {
      errors = errors;
      checkpoint_count = p.pending_checkpoints;
      autovacuum_count = p.pending_autovacuums;
      slow_query_count = p.slow_query_count;
      events = p.pending_events ++ map slow_event (runtime.slow_order p.slow_queries);
    },
    interner,
    record p {
      pending_events = [];
      slow_queries = [];
      pending_checkpoints = 0;
      pending_autovacuums = 0;
      slow_query_count = 0;
      last_event_idx = none;
    },
  )

  -- `collect` behind the read of the lines
  unfoldable pub collect_lines :
      Option LogFormat → List Chars → Pending → StringInterner → Option Collected
  unfolding take_all flush_pending_slow_query drain_pending give_out
  collect_lines format lines p interner = and_then (take_all format lines p) (λ taken.
      and_then (flush_pending_slow_query runtime taken)
        (λ flushed. map_option give_out (drain_pending runtime flushed interner)))
