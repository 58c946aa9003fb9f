-- ===== src/Util/TimeParser.antt =====
-- crates/rpglot-core/src/util/time_parser.rs. The dates and times of chrono are parameters, and so is the
-- clock. A result `none` is a panic, where a slice ends within a character; products and differences wrap
-- as in a release build.
use rpglot.Prelude.{
  ℕ, Bool, true, false, not, ◌&&◌, ◌||◌, Option, none, some, [], ◌∷◌, length, drop, ltb, ◌==◌,
  get_elem?, if◌then◌else◌,
}
use rpglot.Prelude.Int.{ℤ, pos, ◌+ℤ◌, ◌-ℤ◌, ◌*ℕ◌, eqb_ℤ, wrap_i64}
use rpglot.Prelude.Result.{Result, ok, err}
use rpglot.Prelude.Text.{is_ascii_digit, last_code}
use rpglot.Collector.Texts.{
  Chars, and_then, is_empty, len, len_utf8, map_option, or_else, parse_i64, trim, truncate,
  contains,
}

-- What is asked of chrono, each as a timestamp: a text of RFC 3339, a date and time with and without seconds,
-- a date with the time of a text, and the time of a text on the day of a timestamp.
pub record Chrono : Type 0 where
  pub rfc3339 : Chars → Option ℤ
  pub naive_seconds : Chars → Option ℤ
  pub naive_minutes : Chars → Option ℤ
  pub date_minutes : Chars → Chars → Option ℤ
  pub date_seconds : Chars → Chars → Option ℤ
  pub minutes_on : ℤ → Chars → Option ℤ

pub data TimeParseError : Type 0 where
  unrecognized_format relative_time_overflow : TimeParseError

unfoldable pub all_digits : Chars → Bool
all_digits [] = true
all_digits (c ∷ s) = is_ascii_digit c && all_digits s

unfoldable pub try_parse_unix_timestamp : Chars → Option ℤ
unfolding all_digits parse_i64
try_parse_unix_timestamp input =
    if all_digits input && not (is_empty input) then parse_i64 input else none

-- All but the last character.
unfoldable pub without_last : Chars → Chars
without_last [] = []
without_last (c ∷ []) = []
without_last (c ∷ d ∷ s) = c ∷ without_last (d ∷ s)

unfoldable pub seconds_of : ℕ → ℤ → Option ℤ
unfolding wrap_i64
seconds_of unit number =
    if unit == b's'
    then some number
    else if unit == b'm'
    then some (wrap_i64 (number *ℕ 60))
    else if unit == b'h'
    then some (wrap_i64 (number *ℕ 3600))
    else if unit == b'd'
    then some (wrap_i64 (number *ℕ 86400))
    else if unit == b'w'
    then some (wrap_i64 (number *ℕ 604800))
    else none

-- Behind the minus sign. The slice leaves out one byte, which is no whole character where the last one
-- has more.
unfoldable pub relative_seconds : Chars → Option ℕ → Option (Option ℤ)
unfolding without_last parse_i64 seconds_of len_utf8
relative_seconds rest none = some none
relative_seconds rest (some unit) =
    if ltb 1 (len_utf8 unit)
    then none
    else some (and_then (parse_i64 (without_last rest)) (seconds_of unit))

-- The seconds of an expression such as `-1h`, which both relative parsers share.
unfoldable pub relative : Chars → Option (Option ℤ)
unfolding relative_seconds
relative [] = some none
relative (c ∷ rest) = if c == b'-' then relative_seconds rest (last_code rest) else some none

unfoldable pub try_parse_relative : ℤ → Chars → Option (Option ℤ)
unfolding relative wrap_i64 ◌-ℤ◌
try_parse_relative now input =
    map_option (map_option (λ seconds. wrap_i64 (now -ℤ seconds))) (relative input)

unfoldable pub try_parse_relative_delta_seconds : Chars → Option (Option ℤ)
unfolding relative wrap_i64 ◌-ℤ◌
try_parse_relative_delta_seconds input =
    map_option (map_option (λ seconds. wrap_i64 (pos 0 -ℤ seconds))) (relative input)

abbrev is_char_at : ℕ → ℕ → Chars → Bool
is_char_at i c s = elim (get_elem? s i) [ none ↦ false | some d ↦ d == c ]

module _ (chrono : Chrono) where
  unfoldable pub try_parse_iso8601 : Chars → Option ℤ
  unfolding contains
  try_parse_iso8601 input =
      if contains (b'T' ∷ []) input
      then or_else (chrono.rfc3339 input)
          (or_else (chrono.naive_seconds input) (chrono.naive_minutes input))
      else none

  unfoldable pub time_of_length : Chars → Chars → Option ℤ
  unfolding len
  time_of_length date_part time_part =
      if len time_part == 5
      then chrono.date_minutes date_part time_part
      else if len time_part == 8
      then chrono.date_seconds date_part time_part
      else none

  -- Behind the date of ten bytes.
  unfoldable pub colon_time : Chars → Chars → Option ℤ
  unfolding time_of_length
  colon_time date_part [] = none
  colon_time date_part (c ∷ time_part) =
      if c == b':' then time_of_length date_part time_part else none

  unfoldable pub try_parse_date_colon_time : Chars → Option (Option ℤ)
  unfolding contains len truncate colon_time
  try_parse_date_colon_time input =
      if not (contains (b'-' ∷ []) input) || ltb (len input) 11
      then some none
      else map_option (λ date_part. colon_time date_part (drop (length date_part) input))
          (truncate 10 input)

  -- On the day of a timestamp: of now, or of the base.
  unfoldable pub try_parse_time_only : ℤ → Chars → Option ℤ
  unfolding len
  try_parse_time_only base_ts input =
      if len input == 5 && is_char_at 2 b':' input then chrono.minutes_on base_ts input else none

  abbrev or_unrecognized : Option ℤ → Result TimeParseError ℤ
  or_unrecognized none = err unrecognized_format
  or_unrecognized (some ts) = ok ts

  -- The formats behind the relative one
  unfoldable pub parse_absolute : ℤ → Chars → Option (Result TimeParseError ℤ)
  unfolding try_parse_iso8601 try_parse_date_colon_time try_parse_time_only
  parse_absolute base_ts input = elim (try_parse_iso8601 input) [
    | some ts ↦ some (ok ts)
    | none ↦
        map_option
          (λ (found : Option ℤ).
            or_unrecognized (or_else found (try_parse_time_only base_ts input)))
          (try_parse_date_colon_time input)
  ]

  unfoldable pub parse_trimmed : ℤ → Chars → Option (Result TimeParseError ℤ)
  unfolding try_parse_unix_timestamp try_parse_relative parse_absolute
  parse_trimmed now input = elim (try_parse_unix_timestamp input) [
    | some ts ↦ some (ok ts)
    | none ↦ elim (try_parse_relative now input) [
      | none ↦ none
      | some (some ts) ↦ some (ok ts)
      | some none ↦ parse_absolute now input
    ]
  ]

  unfoldable pub parse_time : ℤ → Chars → Option (Result TimeParseError ℤ)
  unfolding trim parse_trimmed
  parse_time now input = parse_trimmed now (trim input)

  -- `checked_add`
  abbrev checked_add : ℤ → ℤ → Result TimeParseError ℤ
  unfolding wrap_i64 ◌+ℤ◌
  checked_add a b =
      if eqb_ℤ (wrap_i64 (a +ℤ b)) (a +ℤ b) then ok (a +ℤ b) else err relative_time_overflow

  unfoldable pub parse_trimmed_with_base : ℤ → Chars → Option (Result TimeParseError ℤ)
  unfolding try_parse_unix_timestamp try_parse_relative_delta_seconds parse_absolute wrap_i64 ◌+ℤ◌
  parse_trimmed_with_base base_ts input = elim (try_parse_unix_timestamp input) [
    | some ts ↦ some (ok ts)
    | none ↦ elim (try_parse_relative_delta_seconds input) [
      | none ↦ none
      | some (some delta_secs) ↦ some (checked_add base_ts delta_secs)
      | some none ↦ parse_absolute base_ts input
    ]
  ]

  unfoldable pub parse_time_with_base : ℤ → Chars → Option (Result TimeParseError ℤ)
  unfolding trim parse_trimmed_with_base
  parse_time_with_base base_ts input = parse_trimmed_with_base base_ts (trim input)
