-- ===== src/Collector/Parser.antt =====
-- collector/log_collector/parser.rs: what a line of the log is found to be, and how numbers are taken out
-- of a message. How a text is read as an `f64` is a parameter.
pub mod Messages
pub mod Lines
pub mod Csv
use rpglot.Prelude.{
  ℕ, suc, ◌+◌, Bool, true, false, not, ◌&&◌, ◌||◌, Option, none, some, List, [], ◌∷◌, ◌++◌, length,
  leb, ltb, ◌==◌, if◌then◌else◌,
}
use rpglot.Prelude.Int.{ℤ, pos}
use rpglot.Prelude.Float.{F64, FloatOps, of_nat}
use rpglot.Prelude.Text.{codes, is_ascii_digit}
use rpglot.Model.Log.{PgLogSeverity}
use rpglot.Collector.Texts.{
  Chars, and_then, or_else, unwrap_or, contains, parse_i64, split_at, take_while, trailing,
  trim_end, is_empty, len_utf8, map_option,
}

pub data LogEventKind : Type 0 where
  failure checkpoint vacuum slow statement detail_context : LogEventKind

pub record CheckpointComplete : Type 0 where
  pub buffers_written : ℤ
  pub write_time_ms : F64
  pub sync_time_ms : F64
  pub total_time_ms : F64
  pub distance_kb : ℤ
  pub estimate_kb : ℤ
  pub wal_added : ℤ
  pub wal_removed : ℤ
  pub wal_recycled : ℤ
  pub sync_files : ℤ
  pub longest_sync_s : F64
  pub average_sync_s : F64

pub record Autovacuum : Type 0 where
  pub table_name : Chars
  pub is_analyze : Bool
  pub tuples_removed : ℤ
  pub pages_removed : ℤ
  pub elapsed_s : F64
  pub buffer_hits : ℤ
  pub buffer_misses : ℤ
  pub buffer_dirtied : ℤ
  pub avg_read_rate_mbs : F64
  pub avg_write_rate_mbs : F64
  pub cpu_user_s : F64
  pub cpu_system_s : F64
  pub wal_records : ℤ
  pub wal_fpi : ℤ
  pub wal_bytes : ℤ

pub data EventData : Type 0 where
  checkpoint_starting : Chars → EventData
  checkpoint_complete : CheckpointComplete → EventData
  slow_query : F64 → Chars → EventData
  autovacuum : Autovacuum → EventData

pub record ParsedLogLine : Type 0 where
  pub severity : PgLogSeverity
  pub message : Chars
  pub event_kind : LogEventKind
  pub event_data : Option EventData

abbrev pub behind : Option (Chars × Chars) → Option Chars
behind none = none
behind (some (before, rest)) = some rest

abbrev pub is_number_char : ℕ → Bool
is_number_char c = is_ascii_digit c || c == b'-'

abbrev pub is_float_char : ℕ → Bool
is_float_char c = is_ascii_digit c || (c == b'.' || c == b'-')

unfoldable pub extract_i64_after : Chars → Chars → Option ℤ
unfolding split_at take_while parse_i64
extract_i64_after text marker =
    and_then (behind (split_at marker text)) (λ rest. parse_i64 (take_while is_number_char rest))

-- The last character that is none of a number.
unfoldable pub last_outside : Chars → Option ℕ
last_outside [] = none
last_outside (c ∷ s) = or_else (last_outside s) (if is_number_char c then none else some c)

-- The slice starts one byte behind the start of that character: a longer one makes it panic, and the
-- result is `none`.
unfoldable pub extract_trailing_i64 : Chars → Option (Option ℤ)
unfolding trailing parse_i64 trim_end last_outside len_utf8
extract_trailing_i64 text =
    let trimmed = trim_end text in
    let number = trailing is_number_char trimmed in
    if ltb 1 (unwrap_or (map_option len_utf8 (last_outside trimmed)) 0)
    then none
    else some (if is_empty number then none else parse_i64 number)

-- The first double-quoted text
unfoldable pub extract_quoted_string : Chars → Option Chars
unfolding split_at
extract_quoted_string text =
    and_then (behind (split_at (b'"' ∷ []) text))
      (λ rest. and_then (split_at (b'"' ∷ []) rest) (λ parts. some parts.0))

-- The text from a marker on, the marker with it.
unfoldable pub from_marker : Chars → Chars → Option Chars
unfolding split_at
from_marker marker text = and_then (behind (split_at marker text)) (λ rest. some (marker ++ rest))

module _ (parse_f64 : Chars → Option F64) where
  unfoldable pub extract_f64_after : Chars → Chars → Option F64
  unfolding split_at take_while
  extract_f64_after text marker =
      and_then (behind (split_at marker text)) (λ rest. parse_f64 (take_while is_float_char rest))

  -- The first of two markers that a number stands behind.
  abbrev pub either_i64 : Chars → Chars → Chars → ℤ
  either_i64 text english russian =
      unwrap_or (or_else (extract_i64_after text english) (extract_i64_after text russian)) (pos 0)

  abbrev pub either_f64 : F64 → Chars → Chars → Chars → F64
  either_f64 otherwise text english russian =
      unwrap_or (or_else (extract_f64_after text english) (extract_f64_after text russian))
        otherwise

  unfoldable pub extract_cpu_field : FloatOps → Chars → Chars → F64
  unfolding extract_f64_after from_marker
  extract_cpu_field ops text field =
      let rest =
        unwrap_or (or_else (from_marker (codes "CPU:") text) (from_marker (codes "ЦП:") text))
          text in
      unwrap_or (extract_f64_after rest field) (of_nat ops 0)
