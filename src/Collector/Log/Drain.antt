-- ===== src/Collector/Log/Drain.antt =====
-- collector/log_collector/mod.rs: drain_pending. A result `none` is a panic.
use rpglot.Prelude.{
  ℕ, Bool, true, false, Option, none, some, String, List, [], ◌∷◌, take, leb, if◌then◌else◌,
}
use rpglot.Prelude.Sort.{sort_by}
use rpglot.Model.Log.{PgLogEntry}
use rpglot.Storage.Interner.{StringInterner, intern}
use rpglot.Collector.Texts.{Chars, and_then, is_empty, map_option, text_of, truncate}
use rpglot.Collector.Normalize.Patterns.{max_log_message_len}
use rpglot.Collector.Normalize.Classify.{classify_error}
use rpglot.Collector.Log.{
  Errors, ErrorKey, PendingError, Pending, Runtime, same_key, dict_get, dict_remove,
  max_log_patterns_per_snapshot,
}

abbrev pub without_statement : ErrorKey → Option PendingError → Option (ErrorKey × PendingError)
without_statement key none = none
without_statement key (some entry) = if is_empty entry.statement then some (key, entry) else none

-- The last error, where it has no statement and was not held back before.
unfoldable pub held_entry : Bool → Option ErrorKey → Errors → Option (ErrorKey × PendingError)
unfolding dict_get same_key
held_entry true last errors = none
held_entry false none errors = none
held_entry false (some key) errors = without_statement key (dict_get same_key key errors)

abbrev pub more_frequent : ErrorKey × PendingError → ErrorKey × PendingError → Bool
more_frequent a b = leb b.1.count a.1.count

abbrev intern_statement : (String → ℕ) → StringInterner → Chars → ℕ × StringInterner
intern_statement xxh3_64 interner statement =
    if is_empty statement then (0, interner) else intern xxh3_64 interner (text_of statement)

-- One entry of the snapshot. Its texts go into the interner: the statement, the pattern, the sample.
unfoldable pub log_entry :
    (String → ℕ) → ErrorKey → PendingError → Chars → StringInterner → PgLogEntry × StringInterner
unfolding text_of classify_error
log_entry xxh3_64 (pattern, severity) pending pattern_str interner =
    let statement = intern_statement xxh3_64 interner pending.statement in
    let text = intern xxh3_64 statement.1 (text_of pattern_str) in
    let sample = intern xxh3_64 text.1 (text_of pending.sample) in
    (
      record {
        pattern_hash = text.0;
        severity = severity;
        count = pending.count;
        sample_hash = sample.0;
        statement_hash = statement.0;
        category = classify_error pattern_str severity;
      },
      sample.1,
    )

abbrev pub prepend :
    PgLogEntry → List PgLogEntry × StringInterner → List PgLogEntry × StringInterner
prepend entry (entries, interner) = (entry ∷ entries, interner)

unfoldable pub log_entries :
    (String → ℕ) → Errors → StringInterner → Option (List PgLogEntry × StringInterner)
unfolding truncate log_entry
log_entries xxh3_64 [] interner = some ([], interner)
log_entries xxh3_64 ((key, pending) ∷ entries) interner =
    and_then (truncate max_log_message_len key.0) (λ pattern_str.
      let made = log_entry xxh3_64 key pending pattern_str interner in
      map_option (prepend made.0) (log_entries xxh3_64 entries made.1))

abbrev pub Drained : Type 0
Drained = List PgLogEntry × StringInterner × Pending

abbrev pub with_pending : Pending → List PgLogEntry × StringInterner → Drained
with_pending p (entries, interner) = (entries, interner, p)

module _ (runtime : Runtime) where
  unfoldable pub top_errors : Errors → Errors
  unfolding sort_by
  top_errors errors =
      take max_log_patterns_per_snapshot (sort_by more_frequent (runtime.error_order errors))

  unfoldable pub drain_held :
      Option (ErrorKey × PendingError) → Pending → StringInterner → Option Drained
  unfolding log_entries top_errors dict_remove same_key
  drain_held none p interner =
      map_option (with_pending (record p { pending_errors = []; error_held_back = false }))
        (log_entries runtime.xxh3_64 (top_errors p.pending_errors) interner)
  drain_held (some (key, entry)) p interner =
      map_option
        (with_pending (record p { pending_errors = (key, entry) ∷ []; error_held_back = true }))
        (log_entries runtime.xxh3_64 (top_errors (dict_remove same_key key p.pending_errors))
          interner)

  unfoldable pub drain_errors : Errors → Pending → StringInterner → Option Drained
  unfolding drain_held held_entry
  drain_errors [] p interner = some ([], interner, p)
  drain_errors (entry ∷ errors) p interner =
      drain_held (held_entry p.error_held_back p.last_error_key p.pending_errors) p interner

  unfoldable pub drain_pending : Pending → StringInterner → Option Drained
  unfolding drain_errors
  drain_pending p interner = drain_errors p.pending_errors p interner
