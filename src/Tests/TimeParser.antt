-- ===== src/Tests/TimeParser.antt =====
-- Times relative to a base, and two that overflow or end in a long character.
use rpglot.Prelude.{◌≡◌, refl, none, some, [], ◌∷◌, ◌++◌}
use rpglot.Prelude.Int.{pos}
use rpglot.Prelude.Result.{ok, err}
use rpglot.Prelude.Text.{codes}
use rpglot.Util.TimeParser.{Chrono, parse_time_with_base, try_parse_relative, unrecognized_format}

-- No date is read.
abbrev chrono : Chrono
chrono = record {
  rfc3339 = λ text. none;
  naive_seconds = λ text. none;
  naive_minutes = λ text. none;
  date_minutes = λ date time. none;
  date_seconds = λ date time. none;
  minutes_on = λ base time. none;
}

hour_before : parse_time_with_base chrono (pos 10000) (codes " -1h ") ≡ some (ok (pos 6400))
unfolding parse_time_with_base
hour_before = refl

no_unit : parse_time_with_base chrono (pos 10000) (codes "-1") ≡ some (err unrecognized_format)
unfolding parse_time_with_base
no_unit = refl

-- The unit is no ASCII letter.
long_unit : try_parse_relative (pos 10000) (codes "-5" ++ 1076 ∷ []) ≡ none
unfolding try_parse_relative
long_unit = refl

-- So many weeks are 579584 seconds modulo 2 ^ 64: under a week before the base, and not aeons.
wrapped_weeks :
    try_parse_relative (pos 1000000) (codes "-30500568904944w") ≡ some (some (pos 420416))
unfolding try_parse_relative
wrapped_weeks = refl
