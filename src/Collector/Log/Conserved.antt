-- ===== src/Collector/Log/Conserved.antt =====
-- collector/log_collector/mod.rs: the errors of a snapshot, together with the one that is held back,
-- against the lines of the log.
use rpglot.Prelude.{
  ◌+◌, ◌^◌, ◌≤◌, ◌<◌, Option, some, List, [], ◌∷◌, ◌≡◌, refl, sym, subst, ◌∙◌, arith, inl, inr,
  length,
}
use rpglot.Storage.Interner.{StringInterner}
use rpglot.Collector.Texts.{Chars, and_then-eq-some, map_option-eq-some, some_injective}
use rpglot.Collector.Log.{Errors, Pending, Runtime, LogFormat}
use rpglot.Collector.Log.Slow.{flush_pending_slow_query}
use rpglot.Collector.Log.Drain.{drain_pending, Drained}
use rpglot.Collector.Log.Collect.{collect_lines, give_out, take_all, Collected}
use rpglot.Collector.Log.Counts.{Counted, Counted-after, error_total, flush-Counted}
use rpglot.Collector.Log.Counted.{failures, take_all-Counted}
use rpglot.Collector.Log.Drained.{reported, IsDrained, drain_pending-IsGivenOut, drained_again}

empty_of_length : (errors : Errors) → length errors ≤ 0 + 0 → errors ≡ []
empty_of_length [] h = refl
empty_of_length (entry ∷ errors) h = absurd (omega arith)

IsDrained-Counted : (p q : Pending) → Counted 0 p q → IsDrained p → IsDrained q
IsDrained-Counted p q counted (inl empty) =
    inl (empty_of_length q.pending_errors (let w = counted.width in rw empty at w))
IsDrained-Counted p q counted (inr marked) = inr (counted.held refl ∙ marked)

module _ (runtime : Runtime) where
  collect_errors :
      (format : Option LogFormat) (lines : List Chars) (p : Pending) (interner : StringInterner)
      (made : Collected)
      → error_total p.pending_errors + failures runtime format lines < 2 ^ 32
      → collect_lines runtime format lines p interner ≡ some made
      → (taken : Pending) × (take_all runtime format lines p ≡ some taken)
        × (q : Pending) × Counted 0 taken q
        × (drained : Drained) × Counted (failures runtime format lines) p q
        × (drain_pending runtime q interner ≡ some drained)
        × (give_out runtime drained ≡ made)
  unfolding collect_lines
  collect_errors format lines p interner made bounded h =
      let taken = and_then-eq-some (take_all runtime format lines p) _ h in
      let flush = and_then-eq-some (flush_pending_slow_query runtime taken.0) _ taken.2 in
      let given =
        map_option-eq-some (give_out runtime) (drain_pending runtime flush.0 interner) flush.2 in
      let kept = flush-Counted runtime taken.0 flush.0 flush.1 in
      (
        taken.0,
        taken.1,
        flush.0,
        kept,
        given.0,
        Counted-after (failures runtime format lines) p taken.0 flush.0
            (take_all-Counted runtime p taken.0 format lines bounded taken.1) kept,
        given.1,
        given.2,
      )

  -- The errors that a snapshot reports and the one that may be held back are those that were pending
  -- and those that the new lines report, however many of one pattern they are, where the collector
  -- does not panic, after the lines at most 32 patterns are pending and the counter does not wrap. At
  -- most 32 entries are reported, and at most one stays.
  pub collect_conserves :
      (format : Option LogFormat) (lines : List Chars) (p : Pending) (interner : StringInterner)
      (taken : Pending) (made : Collected)
      → error_total p.pending_errors + failures runtime format lines < 2 ^ 32
      → take_all runtime format lines p ≡ some taken
      → length taken.pending_errors ≤ 32
      → collect_lines runtime format lines p interner ≡ some made
      → (reported made.0.errors + error_total made.2.pending_errors
          ≡ error_total p.pending_errors + failures runtime format lines)
        × (length made.0.errors ≤ 32)
        × (length made.2.pending_errors ≤ 1)
  unfolding give_out
  collect_conserves format lines p interner taken made bounded read narrow h =
      let (seen, again, q, kept, drained, counted, made_of, same) =
        collect_errors format lines p interner made bounded h in
      let one : seen ≡ taken = some_injective (sym again ∙ read) in
      let given = drain_pending-IsGivenOut runtime q interner drained made_of in
      let size = kept.width in
      let few : length seen.pending_errors ≤ 32 = rw one narrow in
      let before = counted.total in
      let after = given.total (omega arith) in
      subst
        (λ made.
          (reported made.0.errors + error_total made.2.pending_errors
            ≡ error_total p.pending_errors + failures runtime format lines)
          × (length made.0.errors ≤ 32)
          × (length made.2.pending_errors ≤ 1))
        same (after ∙ before, given.few, given.left)

  -- An error is held back once: of what one snapshot leaves, nothing is left by the next if its lines
  -- report no error.
  pub held_once :
      (format : Option LogFormat) (lines more : List Chars) (p : Pending)
      (interner : StringInterner) (first second : Collected)
      → error_total p.pending_errors + failures runtime format lines < 2 ^ 32
      → error_total first.2.pending_errors < 2 ^ 32
      → failures runtime format more ≡ 0
      → collect_lines runtime format lines p interner ≡ some first
      → collect_lines runtime format more first.2 first.1 ≡ some second
      → second.2.pending_errors ≡ []
  unfolding give_out
  held_once format lines more p interner first second bounded counted quiet h next =
      let (_, _, q, _, drained, _, given_by, is_first) =
        collect_errors format lines p interner first bounded h in
      let given = drain_pending-IsGivenOut runtime q interner drained given_by in
      let left : IsDrained first.2 = subst (λ made. IsDrained made.2) is_first given.drained in
      let (_, _, r, _, again, counted_again, again_by, is_second) =
        collect_errors format more first.2 first.1 second (omega arith) next in
      subst (λ made. made.2.pending_errors ≡ []) is_second
        (drained_again runtime r first.1 again
          (IsDrained-Counted first.2 r (subst (λ n. Counted n first.2 r) quiet counted_again) left)
          again_by)
