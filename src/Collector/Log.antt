-- ===== src/Collector/Log.antt =====
-- collector/log_collector/mod.rs: the state between two snapshots. The maps are lists of entries, each key
-- once; in what order a map gives its entries is a parameter.
pub mod Events
pub mod Slow
pub mod Accumulate
pub mod Drain
pub mod Dicts
pub mod Room
pub mod Collect
pub mod Collector
pub mod Counts
pub mod Counted
pub mod Drained
pub mod Conserved
pub mod Bounds
use mathlib.Core.List.{Perm}
use rpglot.Prelude.{
  ℕ, Bool, true, false, ◌&&◌, Option, none, some, String, List, [], ◌∷◌, if◌then◌else◌,
}
use rpglot.Prelude.Float.{F64, FloatOps}
use rpglot.Model.Log.{PgLogEventEntry, PgLogSeverity, error, fatal, panic}
use rpglot.Collector.Texts.{Chars, same_chars}

abbrev pub max_log_patterns_per_snapshot : ℕ
max_log_patterns_per_snapshot = 32

abbrev pub max_slow_query_len : ℕ
max_slow_query_len = 1024

abbrev pub max_slow_queries_per_snapshot : ℕ
max_slow_queries_per_snapshot = 16

pub record PendingError : Type 0 where
  pub count : ℕ
  pub sample : Chars
  pub statement : Chars

pub record PendingSlowQuery : Type 0 where
  pub duration_ms : F64
  pub sql : Chars
  pub truncated : Bool

pub record GroupedSlowQuery : Type 0 where
  pub sample_sql : Chars
  pub max_elapsed_s : F64
  pub count : ℕ

pub data LogFormat : Type 0 where
  stderr csvlog : LogFormat

abbrev pub ErrorKey : Type 0
ErrorKey = Chars × PgLogSeverity

abbrev same_severity : PgLogSeverity → PgLogSeverity → Bool
same_severity error error = true
same_severity fatal fatal = true
same_severity panic panic = true
same_severity a b = false

unfoldable pub same_key : ErrorKey → ErrorKey → Bool
unfolding same_chars
same_key (pattern, severity) (other, level) =
    same_chars pattern other && same_severity severity level

module _ {K V : Type 0} (same : K → K → Bool) where
  unfoldable pub dict_get : K → List (K × V) → Option V
  dict_get k [] = none
  dict_get k ((j, v) ∷ m) = let rest = dict_get k m in if same j k then some v else rest

  unfoldable pub dict_set : K → V → List (K × V) → List (K × V)
  dict_set k v [] = (k, v) ∷ []
  dict_set k v ((j, w) ∷ m) =
      let rest = dict_set k v m in if same j k then (j, v) ∷ m else (j, w) ∷ rest

  unfoldable pub dict_remove : K → List (K × V) → List (K × V)
  dict_remove k [] = []
  dict_remove k ((j, w) ∷ m) = let rest = dict_remove k m in if same j k then m else (j, w) ∷ rest

abbrev pub Errors : Type 0
Errors = List (ErrorKey × PendingError)

abbrev pub SlowQueries : Type 0
SlowQueries = List (Chars × GroupedSlowQuery)

-- The fields of LogCollector that the lines of the log change.
pub record Pending : Type 0 where
  pub pending_errors : Errors
  pub pending_checkpoints : ℕ
  pub pending_autovacuums : ℕ
  pub pending_events : List PgLogEventEntry
  pub last_event_idx : Option ℕ
  pub last_error_key : Option ErrorKey
  pub error_held_back : Bool
  pub pending_statement_key : Option ErrorKey
  pub pending_slow_query : Option PendingSlowQuery
  pub slow_queries : SlowQueries
  pub slow_query_count : ℕ

-- As `new` makes them.
abbrev pub nothing_pending : Pending
nothing_pending = record {
  pending_errors = [];
  pending_checkpoints = 0;
  pending_autovacuums = 0;
  pending_events = [];
  last_event_idx = none;
  last_error_key = none;
  error_held_back = false;
  pending_statement_key = none;
  pending_slow_query = none;
  slow_queries = [];
  slow_query_count = 0;
}

-- What the collector calls: the processor, the standard library and the hash of texts.
pub record Runtime : Type 0 where
  pub ops : FloatOps
  pub parse_f64 : Chars → Option F64
  pub to_lowercase : Chars → Chars
  pub xxh3_64 : String → ℕ
  pub error_order : Errors → Errors
  pub slow_order : SlowQueries → SlowQueries
  pub error_order-Perm : (m : Errors) → Perm (error_order m) m
  pub slow_order-Perm : (m : SlowQueries) → Perm (slow_order m) m
