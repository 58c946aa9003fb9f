-- ===== src/Collector/Log/Counted.antt =====
-- collector/log_collector/mod.rs: the errors that are pending after a run of lines, against the number of
-- lines that report one.
use rpglot.Prelude.{
  ℕ, ◌+◌, ◌^◌, ◌<◌, Bool, true, false, Option, none, some, List, [], ◌∷◌, ◌≡◌, refl, subst, ap, leb,
  arith, inl, inr, Bool-cases, if◌then◌else◌,
}
use rpglot.Collector.Texts.{
  Chars, len, trim, truncate, unwrap_or, and_then-eq-some, map_option-eq-some, some_injective,
}
use rpglot.Collector.Normalize.Patterns.{normalize_error, max_log_message_len}
use rpglot.Collector.Parser.{
  ParsedLogLine, LogEventKind, failure, checkpoint, vacuum, slow, statement, detail_context,
  EventData, checkpoint_starting, checkpoint_complete, slow_query, autovacuum,
}
use rpglot.Collector.Log.{
  ErrorKey, PendingError, PendingSlowQuery, Pending, Runtime, LogFormat, same_key, dict_get,
  max_slow_query_len,
}
use rpglot.Collector.Log.Slow.{flush_pending_slow_query}
use rpglot.Collector.Log.Accumulate.{add_error, accumulate, accumulate_as, start_query}
use rpglot.Collector.Log.Collect.{
  accumulate_line, continue_line, continue_last, continue_query, continue_statement, continue_event,
  parse_line, primary_line, take_line, take_all, is_continuation_line, will_have_continuations,
  note_event, last_index, joined,
}
use rpglot.Collector.Log.Counts.{
  Counted, Counted-trans, Counted-after, Counted-before, Counted-same, error_total,
  add_error-Counted, add_statement-Counted, flush-Counted, same_total,
}
use rpglot.Collector.Log.Dicts.{length-dict_set_known}

unfoldable pub kind_failures : LogEventKind → ℕ
kind_failures failure = 1
kind_failures checkpoint = 0
kind_failures vacuum = 0
kind_failures slow = 0
kind_failures statement = 0
kind_failures detail_context = 0

unfoldable pub failures_of : Option ParsedLogLine → ℕ
unfolding kind_failures
failures_of none = 0
failures_of (some parsed) = kind_failures parsed.event_kind

module _ (runtime : Runtime) where
  -- 1 for a line that reports an error, and that continues no other.
  unfoldable pub line_failures : Option LogFormat → Chars → ℕ
  unfolding is_continuation_line parse_line failures_of
  line_failures format line =
      if is_continuation_line line
      then 0
      else failures_of (unwrap_or (parse_line runtime format line) none)

  unfoldable pub failures : Option LogFormat → List Chars → ℕ
  unfolding line_failures
  failures format [] = 0
  failures format (line ∷ lines) = line_failures format line + failures format lines

  start_query-Counted :
      (p q : Pending) (event : Option EventData)
      → start_query runtime event p ≡ some q
      → Counted 0 p q
  unfolding start_query
  start_query-Counted p q none h =
      subst (λ q. Counted 0 p q) (some_injective h) (Counted-same p p refl refl refl)
  start_query-Counted p q (some (checkpoint_starting reason)) h =
      subst (λ q. Counted 0 p q) (some_injective h) (Counted-same p p refl refl refl)
  start_query-Counted p q (some (checkpoint_complete c)) h =
      subst (λ q. Counted 0 p q) (some_injective h) (Counted-same p p refl refl refl)
  start_query-Counted p q (some (autovacuum a)) h =
      subst (λ q. Counted 0 p q) (some_injective h) (Counted-same p p refl refl refl)
  start_query-Counted p q (some (slow_query duration_ms sql)) h =
      let made = map_option-eq-some _ (truncate max_slow_query_len sql) h in
      subst (λ q. Counted 0 p q) made.2 (Counted-same p _ refl refl refl)

  accumulate_as-Counted :
      (p q : Pending) (kind : LogEventKind) (parsed : ParsedLogLine)
      → error_total p.pending_errors + kind_failures kind < 2 ^ 32
      → accumulate_as runtime kind parsed p ≡ some q
      → Counted (kind_failures kind) p q
  unfolding accumulate_as kind_failures
  accumulate_as-Counted p q failure parsed bounded h =
      let made =
        and_then-eq-some (normalize_error runtime.to_lowercase parsed.message)
          (λ normalized. add_error p (normalized, parsed.severity) parsed.message) h in
      add_error-Counted p q (made.0, parsed.severity) parsed.message bounded made.2
  accumulate_as-Counted p q statement parsed bounded h =
      add_statement-Counted p q p.last_error_key parsed.message h
  accumulate_as-Counted p q detail_context parsed bounded h =
      subst (λ q. Counted 0 p q) (some_injective h) (Counted-same p p refl refl refl)
  accumulate_as-Counted p q checkpoint parsed bounded h =
      subst (λ q. Counted 0 p q) (some_injective h) (Counted-same p _ refl refl refl)
  accumulate_as-Counted p q vacuum parsed bounded h =
      subst (λ q. Counted 0 p q) (some_injective h) (Counted-same p _ refl refl refl)
  accumulate_as-Counted p q slow parsed bounded h =
      let cleared = record p { last_error_key = none; last_event_idx = none } in
      let made =
        and_then-eq-some (flush_pending_slow_query runtime cleared)
          (start_query runtime parsed.event_data) h in
      Counted-trans 0 0 p cleared q (Counted-same p cleared refl refl refl) (
        Counted-trans 0 0 cleared made.0 q (flush-Counted runtime cleared made.0 made.1)
          (start_query-Counted made.0 q parsed.event_data made.2))

  note_event-Counted :
      (p q : Pending) (noted : Bool) → note_event runtime noted p ≡ some q → Counted 0 p q
  unfolding note_event
  note_event-Counted p q false h =
      subst (λ q. Counted 0 p q) (some_injective h) (Counted-same p p refl refl refl)
  note_event-Counted p q true h =
      let made = map_option-eq-some _ (last_index p.pending_events) h in
      subst (λ q. Counted 0 p q) made.2 (Counted-same p _ refl refl refl)

  accumulate_line-Counted :
      (p q : Pending) (parsed : Option ParsedLogLine)
      → error_total p.pending_errors + failures_of parsed < 2 ^ 32
      → accumulate_line runtime parsed p ≡ some q
      → Counted (failures_of parsed) p q
  unfolding accumulate_line failures_of accumulate
  accumulate_line-Counted p q none bounded h =
      subst (λ q. Counted 0 p q) (some_injective h) (Counted-same p _ refl refl refl)
  accumulate_line-Counted p q (some parsed) bounded h =
      let made =
        and_then-eq-some (accumulate runtime parsed p)
          (note_event runtime (will_have_continuations parsed.event_kind)) h in
      let counted = accumulate_as-Counted p made.0 parsed.event_kind parsed bounded made.1 in
      let noted = note_event-Counted made.0 q (will_have_continuations parsed.event_kind) made.2 in
      Counted-after (kind_failures parsed.event_kind) p made.0 q counted noted

  continue_statement-Counted :
      (p : Pending) (key : ErrorKey) (trimmed : Chars) (entry : Option PendingError)
      → dict_get same_key key p.pending_errors ≡ entry
      → Counted 0 p (continue_statement key trimmed entry p)
  unfolding continue_statement
  continue_statement-Counted p key trimmed none known = Counted-same p p refl refl refl
  continue_statement-Counted p key trimmed (some entry) known =
      elim (Bool-cases (leb (len entry.statement + 1 + len trimmed) max_log_message_len)) [
        | inl fits ↦
            let longer = record entry { statement = joined entry.statement trimmed } in
            rw fits (record {
              total = same_total key p.pending_errors entry longer known refl;
              width =
                  omega
                    (arith, length-dict_set_known same_key key longer entry p.pending_errors known);
              held = λ h. refl;
              room = λ few. few;
            })
        | inr too_long ↦ rw too_long (Counted-same p p refl refl refl)
      ]

  continue_event-Counted :
      (p : Pending) (idx : Option ℕ) (line : Chars)
      → Counted 0 p (continue_event runtime idx line p)
  unfolding continue_event
  continue_event-Counted p none line = Counted-same p p refl refl refl
  continue_event-Counted p (some idx) line = Counted-same p _ refl refl refl

  continue_last-Counted :
      (p q : Pending) (query : Option PendingSlowQuery) (line : Chars)
      → continue_last runtime query line p ≡ some q
      → Counted 0 p q
  unfolding continue_last
  continue_last-Counted p q none line h =
      subst (λ q. Counted 0 p q) (some_injective h) (continue_event-Counted p p.last_event_idx line)
  continue_last-Counted p q (some query) line h =
      let made = map_option-eq-some _ (continue_query query (trim line)) h in
      subst (λ q. Counted 0 p q) made.2 (Counted-same p _ refl refl refl)

  continue_line-Counted :
      (p q : Pending) (key : Option ErrorKey) (line : Chars)
      → continue_line runtime key line p ≡ some q
      → Counted 0 p q
  unfolding continue_line
  continue_line-Counted p q none line h = continue_last-Counted p q p.pending_slow_query line h
  continue_line-Counted p q (some key) line h =
      subst (λ q. Counted 0 p q) (some_injective h)
        (continue_statement-Counted p key (trim line) (dict_get same_key key p.pending_errors) refl)

  primary_line-Counted :
      (p q : Pending) (format : Option LogFormat) (line : Chars)
      → error_total p.pending_errors + failures_of (unwrap_or (parse_line runtime format line) none)
        < 2 ^ 32
      → primary_line runtime format line p ≡ some q
      → Counted (failures_of (unwrap_or (parse_line runtime format line) none)) p q
  unfolding primary_line
  primary_line-Counted p q format line bounded h =
      let made = and_then-eq-some (flush_pending_slow_query runtime p) _ h in
      let parsed = and_then-eq-some (parse_line runtime format line) _ made.2 in
      let flush = flush-Counted runtime p made.0 made.1 in
      let reset = record made.0 { pending_statement_key = none; last_event_idx = none } in
      let clean = Counted-after 0 p made.0 reset flush (Counted-same made.0 reset refl refl refl) in
      let total = clean.total in
      let failed : failures_of (unwrap_or (parse_line runtime format line) none)
          ≡ failures_of parsed.0 =
        ap (λ o. failures_of (unwrap_or o none)) parsed.1 in
      rw failed (
        Counted-before (failures_of parsed.0) p reset q clean
          (accumulate_line-Counted reset q parsed.0 (omega arith) parsed.2))

  take_line-Counted :
      (p q : Pending) (format : Option LogFormat) (line : Chars)
      → error_total p.pending_errors + line_failures format line < 2 ^ 32
      → take_line runtime format line p ≡ some q
      → Counted (line_failures format line) p q
  unfolding take_line line_failures
  take_line-Counted p q format line bounded h = elim (Bool-cases (is_continuation_line line)) [
    | inl continues ↦
        rw continues (continue_line-Counted p q p.pending_statement_key line (rw continues at h))
    | inr begins ↦
        rw begins (primary_line-Counted p q format line (rw begins at bounded) (rw begins at h))
  ]

  -- Lines that are taken without a panic add to the pending errors one for each line that reports one,
  -- and as many entries at most.
  pub take_all-Counted :
      (p q : Pending) (format : Option LogFormat) (lines : List Chars)
      → error_total p.pending_errors + failures format lines < 2 ^ 32
      → take_all runtime format lines p ≡ some q
      → Counted (failures format lines) p q
  unfolding take_all failures
  take_all-Counted p q format [] bounded h =
      subst (λ q. Counted 0 p q) (some_injective h) (Counted-same p p refl refl refl)
  take_all-Counted p q format (line ∷ lines) bounded h =
      let made =
        and_then-eq-some (take_line runtime format line p) (take_all runtime format lines) h in
      let first = take_line-Counted p made.0 format line (omega arith) made.1 in
      let total = first.total in
      Counted-trans (line_failures format line) (failures format lines) p made.0 q first
        (take_all-Counted made.0 q format lines (omega arith) made.2)
