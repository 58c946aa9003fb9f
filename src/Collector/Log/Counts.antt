-- ===== src/Collector/Log/Counts.antt =====
-- collector/log_collector/mod.rs: what one line of the log does to the number of errors that are pending.
use rpglot.Prelude.{
  ℕ, ◌+◌, ◌^◌, ◌≤◌, ◌<◌, false, Option, none, some, [], ◌∷◌, ◌≡◌, refl, ap, subst, ◌∙◌, arith, inl,
  inr, length, Bool-cases,
}
use rpglot.Prelude.Sort.{sum_of}
use rpglot.Collector.Texts.{
  Chars, is_empty, trim, unwrap_or, some_injective, map_option-eq-some, truncate,
}
use rpglot.Collector.Normalize.Patterns.{normalize_error, max_log_message_len}
use rpglot.Collector.Log.{
  Errors, ErrorKey, PendingError, PendingSlowQuery, Pending, Runtime, same_key, dict_get, dict_set,
}
use rpglot.Collector.Log.Slow.{flush_query, flushed, flush_pending_slow_query}
use rpglot.Collector.Log.Dicts.{length-dict_set, length-dict_set_known}
use rpglot.Collector.Log.Room.{add_slow-room}
use rpglot.Prelude.Float.{of_nat}
use rpglot.Collector.Log.Accumulate.{
  add_error, add_statement, attach_to, attached, counted, no_error_yet, sample_of,
}

count_of : Option PendingError → ℕ
count_of none = 0
count_of (some entry) = entry.count

-- How many errors the entries stand for.
unfoldable pub error_total : Errors → ℕ
unfolding sum_of
error_total errors = sum_of (λ entry. entry.1.count) errors

error_total-dict_set :
    (key : ErrorKey) (entry : PendingError) (errors : Errors)
    → error_total (dict_set same_key key entry errors) + count_of (dict_get same_key key errors)
      ≡ error_total errors + entry.count
unfolding error_total dict_set dict_get count_of
error_total-dict_set key entry [] = omega arith
error_total-dict_set key entry ((other, pending) ∷ errors) =
    ground (arith, error_total-dict_set key entry errors)

count_of_le :
    (key : ErrorKey) (errors : Errors)
    → count_of (dict_get same_key key errors) ≤ error_total errors
unfolding error_total dict_get count_of
count_of_le key [] = omega arith
count_of_le key ((other, pending) ∷ errors) = ground (arith, count_of_le key errors)

-- A new entry that counts as much as the old one.
pub same_total :
    (key : ErrorKey) (errors : Errors) (old new : PendingError)
    → dict_get same_key key errors ≡ some old
    → new.count ≡ old.count
    → error_total (dict_set same_key key new errors) ≡ error_total errors + 0
unfolding count_of
same_total key errors old new known same =
    ground (arith, error_total-dict_set key new errors, known)

-- A step that counts `n` errors. One that counts none leaves the mark on the error that was held back,
-- and no step has more groups of slow queries than there is room for.
pub record Counted (n : ℕ) (before after : Pending) : Type 0 where
  pub total : error_total after.pending_errors ≡ error_total before.pending_errors + n
  pub width : length after.pending_errors ≤ length before.pending_errors + n
  pub held : n ≡ 0 → after.error_held_back ≡ before.error_held_back
  pub room : length before.slow_queries ≤ 16 → length after.slow_queries ≤ 16

pub Counted-trans :
    (m n : ℕ) (p q r : Pending) → Counted m p q → Counted n q r → Counted (m + n) p r
Counted-trans m n p q r first second = record {
  total = let a = first.total in let b = second.total in omega arith;
  width = let a = first.width in let b = second.width in omega arith;
  held = λ none_counted. second.held (omega arith) ∙ first.held (omega arith);
  room = λ few. second.room (first.room few);
}

pub Counted-after : (n : ℕ) (p q r : Pending) → Counted n p q → Counted 0 q r → Counted n p r
Counted-after n p q r first second =
    subst (λ k. Counted k p r) {x = n + 0} {y = n} (omega arith)
      (Counted-trans n 0 p q r first second)

pub Counted-before : (n : ℕ) (p q r : Pending) → Counted 0 p q → Counted n q r → Counted n p r
Counted-before n p q r first second =
    subst (λ k. Counted k p r) {x = 0 + n} {y = n} (omega arith)
      (Counted-trans 0 n p q r first second)

-- A step that leaves the errors alone.
pub Counted-same :
    (p q : Pending)
    → q.pending_errors ≡ p.pending_errors
    → q.error_held_back ≡ p.error_held_back
    → q.slow_queries ≡ p.slow_queries
    → Counted 0 p q
Counted-same p q errors held groups = record {
  total = ap error_total errors ∙ omega arith;
  width = rw errors (omega arith);
  held = λ h. held;
  room = λ few. rw groups few;
}

counted_total :
    (key : ErrorKey) (errors : Errors) (sample : Chars) (found : Option PendingError)
    → dict_get same_key key errors ≡ found
    → error_total errors + 1 < 2 ^ 32
    → error_total (dict_set same_key key (counted (unwrap_or found no_error_yet) sample) errors)
      ≡ error_total errors + 1
unfolding count_of
counted_total key errors sample none known bounded =
    ground (arith, error_total-dict_set key (counted no_error_yet sample) errors, known)
counted_total key errors sample (some entry) known bounded =
    ground
      (arith, error_total-dict_set key (counted entry sample) errors, count_of_le key errors, known)

pub add_error-Counted :
    (p q : Pending) (key : ErrorKey) (message : Chars)
    → error_total p.pending_errors + 1 < 2 ^ 32
    → add_error p key message ≡ some q
    → Counted 1 p q
unfolding add_error
add_error-Counted p q key message bounded h =
    let errors = p.pending_errors in
    let entry = unwrap_or (dict_get same_key key errors) no_error_yet in
    let after : Chars → Pending = λ sample. record p {
      pending_errors = dict_set same_key key (counted entry sample) errors;
      last_error_key = some key;
      error_held_back = false;
    } in
    let made = map_option-eq-some after (sample_of entry message) h in
    subst (λ q. Counted 1 p q) made.2
      (record {
        total = counted_total key errors made.0 (dict_get same_key key errors) refl bounded;
        width = length-dict_set same_key key (counted entry made.0) errors;
        held = λ never. absurd (omega arith);
        room = λ few. few;
      })

attached-Counted :
    (p : Pending) (key : ErrorKey) (entry : PendingError) (stmt : Chars)
    → dict_get same_key key p.pending_errors ≡ some entry
    → Counted 0 p (attached p key entry stmt)
unfolding attached
attached-Counted p key entry stmt known = elim (Bool-cases (is_empty (trim stmt))) [
  | inl blank ↦ rw blank (
      Counted-same p (record p { pending_statement_key = some key; last_error_key = none }) refl
        refl refl)
  | inr text ↦ rw text (record {
    total = same_total key p.pending_errors entry (record entry { statement = stmt }) known refl;
    width = omega (
      arith,
      length-dict_set_known same_key key (record entry { statement = stmt }) entry p.pending_errors
          known,
    );
    held = λ h. refl;
    room = λ few. few;
  })
]

attach_to-Counted :
    (p q : Pending) (key : ErrorKey) (message : Chars) (entry : Option PendingError)
    → dict_get same_key key p.pending_errors ≡ entry
    → attach_to p key message entry ≡ some q
    → Counted 0 p q
unfolding attach_to
attach_to-Counted p q key message none known h =
    subst (λ q. Counted 0 p q) (some_injective h)
      (Counted-same p (record p { last_error_key = none }) refl refl refl)
attach_to-Counted p q key message (some entry) known h =
    elim (Bool-cases (is_empty entry.statement)) [
      | inl missing ↦
          let made =
            map_option-eq-some (attached p key entry) (truncate max_log_message_len message)
              (rw missing at h) in
          subst (λ q. Counted 0 p q) made.2 (attached-Counted p key entry made.0 known)
      | inr present ↦
          subst (λ q. Counted 0 p q) (some_injective (rw present at h))
            (Counted-same p (record p { last_error_key = none }) refl refl refl)
    ]

pub add_statement-Counted :
    (p q : Pending) (last : Option ErrorKey) (message : Chars)
    → add_statement p last message ≡ some q
    → Counted 0 p q
unfolding add_statement
add_statement-Counted p q none message h =
    subst (λ q. Counted 0 p q) (some_injective h)
      (Counted-same p (record p { last_error_key = none }) refl refl refl)
add_statement-Counted p q (some key) message h =
    attach_to-Counted p q key message (dict_get same_key key p.pending_errors) refl h

module _ (runtime : Runtime) where
  flush_query-Counted :
      (p q : Pending) (query : Option PendingSlowQuery)
      → flush_query runtime query p ≡ some q
      → Counted 0 p q
  unfolding flush_query
  flush_query-Counted p q none h =
      subst (λ q. Counted 0 p q) (some_injective h) (Counted-same p p refl refl refl)
  flush_query-Counted p q (some query) h =
      let made =
        map_option-eq-some (flushed runtime p query)
          (normalize_error runtime.to_lowercase query.sql) h in
      subst (λ q. Counted 0 p q) made.2
        (record {
          total = omega arith;
          width = omega arith;
          held = λ h. refl;
          room = λ few.
              add_slow-room runtime made.0 query.sql
                (runtime.ops.div query.duration_ms (of_nat runtime.ops 1000)) p.slow_queries few;
        })

  pub flush-Counted : (p q : Pending) → flush_pending_slow_query runtime p ≡ some q → Counted 0 p q
  unfolding flush_pending_slow_query
  flush-Counted p q h = flush_query-Counted p q p.pending_slow_query h
