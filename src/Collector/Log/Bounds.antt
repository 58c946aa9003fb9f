-- ===== src/Collector/Log/Bounds.antt =====
-- collector/log_collector/mod.rs: the limits that the collector keeps, and the message that stops it.
use rpglot.Prelude.{
  ℕ, ◌+◌, ◌^◌, ◌≤◌, ◌<◌, Option, none, some, List, ◌∷◌, ◌++◌, ◌≡◌, refl, arith, length,
}
use rpglot.Model.Log.{PgLogSeverity}
use rpglot.Collector.Texts.{
  Chars, and_then, len, len_utf8, truncate, truncate-len, truncate_within, and_then-eq-some,
}
use rpglot.Collector.Normalize.Patterns.{
  max_log_message_len, cut_to, normalize_error, replace_all_quoted, replace_word_patterns,
}
use rpglot.Collector.Parser.Lines.{failed_with}
use rpglot.Collector.Log.{ErrorKey, Pending, Runtime, LogFormat, nothing_pending, dict_get}
use rpglot.Collector.Log.Accumulate.{accumulate, accumulate_as, add_error, sample_of}
use rpglot.Collector.Log.Collect.{take_all}
use rpglot.Collector.Log.Counts.{error_total}
use rpglot.Collector.Log.Counted.{failures, take_all-Counted}

cut_to-len : (n : ℕ) (s t : Chars) → cut_to n s ≡ some t → len t ≤ n
unfolding cut_to
cut_to-len n s t h = ground (arith, truncate-len n s t)

-- A pattern has 256 bytes at most.
pub normalize_error-len :
    (to_lowercase : Chars → Chars) (message pattern : Chars)
    → normalize_error to_lowercase message ≡ some pattern
    → len pattern ≤ 256
unfolding normalize_error
normalize_error-len to_lowercase message pattern h =
    let made =
      and_then-eq-some (replace_word_patterns to_lowercase (replace_all_quoted message))
        (cut_to max_log_message_len) h in
    cut_to-len 256 made.0 pattern made.2

module _ (runtime : Runtime) where
  -- The lines of the log leave at most 16 groups of slow queries, where no more were there before and the
  -- counter of errors does not wrap.
  pub take_all_room :
      (p q : Pending) (format : Option LogFormat) (lines : List Chars)
      → error_total p.pending_errors + failures runtime format lines < 2 ^ 32
      → length p.slow_queries ≤ 16
      → take_all runtime format lines p ≡ some q
      → length q.slow_queries ≤ 16
  take_all_room p q format lines bounded few h =
      (take_all-Counted runtime p q format lines bounded h).room few

  add_error_panics :
      (key : ErrorKey) (message : Chars)
      → truncate 256 message ≡ none
      → add_error nothing_pending key message ≡ none
  unfolding add_error sample_of dict_get
  add_error_panics key message cut = rw cut refl

  and_then-none :
      (pattern : Option Chars) (next : Chars → Option Pending)
      → ((s : Chars) → next s ≡ none)
      → and_then pattern next ≡ none
  and_then-none none next stops = refl
  and_then-none (some s) next stops = stops s

  -- With nothing pending, an error whose message has a character of several bytes across its byte 256
  -- makes the collector panic, whatever its severity and its other text.
  pub split_character_panics :
      (severity : PgLogSeverity) (s : Chars) (c : ℕ) (rest : Chars)
      → len s < 256
      → 256 < len s + len_utf8 c
      → accumulate runtime (failed_with severity (s ++ c ∷ rest)) nothing_pending ≡ none
  unfolding accumulate accumulate_as
  split_character_panics severity s c rest start ends =
      and_then-none (normalize_error runtime.to_lowercase (s ++ c ∷ rest))
        (λ pattern. add_error nothing_pending (pattern, severity) (s ++ c ∷ rest))
        (λ pattern.
          add_error_panics (pattern, severity) (s ++ c ∷ rest)
            (truncate_within 256 s c rest start ends))
