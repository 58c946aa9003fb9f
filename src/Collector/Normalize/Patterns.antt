-- ===== src/Collector/Normalize/Patterns.antt =====
-- collector/log_collector/normalize.rs: normalize_error with all its steps, but for those of the parent.
use rpglot.Prelude.{
  ℕ, zero, suc, ◌+◌, Bool, true, not, ◌&&◌, ◌||◌, Option, none, some, List, [], ◌∷◌, ◌++◌, length,
  leb, ltb, ◌==◌, if◌then◌else◌,
}
use rpglot.Prelude.Text.{codes, is_ascii_digit}
use rpglot.Collector.Texts.{Chars, as_bytes, len, and_then, take_while, truncate, split_at}
use rpglot.Collector.Normalize.{
  dotted, dots, replace_quoted, replace_delimited, skip_while, replace_word_number,
  replace_word_float,
}

abbrev pub max_log_message_len : ℕ
max_log_message_len = 256

abbrev pub is_ascii_alphabetic : ℕ → Bool
is_ascii_alphabetic b = (leb b'A' b && leb b b'Z') || (leb b'a' b && leb b b'z')

abbrev pub is_ascii_alphanumeric : ℕ → Bool
is_ascii_alphanumeric b = is_ascii_digit b || is_ascii_alphabetic b

abbrev pub is_ascii_hexdigit : ℕ → Bool
is_ascii_hexdigit b = is_ascii_digit b || ((leb b'A' b && leb b b'F') || (leb b'a' b && leb b b'f'))

abbrev pub one_to_eight : ℕ → Bool
one_to_eight n = leb 1 n && leb n 8

-- The last byte of what was passed.
unfoldable pub last_of : ℕ → List ℕ → ℕ
last_of b [] = b
last_of b (c ∷ bytes) = last_of c bytes

-- A byte that is no letter and no digit, or no byte
abbrev pub bounded_before : Option ℕ → Bool
bounded_before none = true
bounded_before (some b) = not (is_ascii_alphanumeric b)

abbrev pub bounded_after : List ℕ → Bool
bounded_after [] = true
bounded_after (b ∷ bytes) = not (is_ascii_alphanumeric b)

-- What one round of the loop pushes, the byte before the next round, and the bytes left.
abbrev pub Round : Type 0
Round = Chars × Option ℕ × List ℕ

-- Behind the first run of hexadecimal digits and a slash.
unfoldable pub second_run : Option ℕ → List ℕ → List ℕ → Round
unfolding last_of take_while skip_while
second_run before first bytes =
    let second = take_while is_ascii_hexdigit bytes in
    let rest = skip_while is_ascii_hexdigit bytes in
    (
      if one_to_eight (length second) && (bounded_before before && bounded_after rest)
          then b'x' ∷ b'/' ∷ b'x' ∷ []
          else first ++ (b'/' ∷ second),
      some (last_of b'/' second),
      rest,
    )

-- Behind the first run.
unfoldable pub first_run : Option ℕ → List ℕ → List ℕ → Round
unfolding second_run last_of
first_run before first [] = (first, some (last_of 0 first), [])
first_run before first (b ∷ bytes) =
    if b == b'/' && one_to_eight (length first)
    then second_run before first bytes
    else (first, some (last_of 0 first), b ∷ bytes)

unfoldable pub wal_round : Option ℕ → ℕ → List ℕ → Round
unfolding first_run take_while skip_while
wal_round before b bytes =
    if is_ascii_hexdigit b
    then first_run before (b ∷ take_while is_ascii_hexdigit bytes)
        (skip_while is_ascii_hexdigit bytes)
    else (b ∷ [], some b, bytes)

-- The loop over the bytes. A byte that is pushed `as char` is the character of that number.
unfoldable pub wal_loop : ℕ → Option ℕ → List ℕ → Chars
unfolding wal_round
wal_loop zero before bytes = []
wal_loop (suc fuel) before [] = []
wal_loop (suc fuel) before (b ∷ bytes) =
    let round = wal_round before b bytes in round.0 ++ wal_loop fuel round.1 round.2

unfoldable pub replace_wal_address : Chars → Chars
unfolding wal_loop as_bytes
replace_wal_address s = wal_loop (length (as_bytes s)) none (as_bytes s)

unfoldable pub replace_numbers : Chars → Chars
unfolding replace_word_number replace_word_float replace_wal_address
replace_numbers s =
    let transactions = replace_word_number s (codes "transaction ") in
    let relations = replace_word_number transactions (codes "relation ") in
    let processes = replace_word_number relations (codes "process ") in
    let databases = replace_word_number processes (codes "database ") in
    let pids = replace_word_number databases (codes "PID ") in
    let times = replace_word_float pids (codes "after ") in
    let pages = replace_word_number times (codes "on page ") in
    let timelines = replace_word_number pages (codes "TIMELINE ") in replace_wal_address timelines

unfoldable pub replace_input_syntax : Chars → Chars
unfolding split_at
replace_input_syntax s = elim (split_at (codes "invalid input syntax for ") s) [
  | none ↦ s
  | some (before, rest) ↦ elim (split_at (codes ": ") rest) [
    | none ↦ s
    | some (kind, value) ↦
        before ++ (codes "invalid input syntax for " ++ (kind ++ (codes ": " ++ dots)))
  ]
]

abbrev pub denied : List Chars
denied =
    codes "permission denied for table "
    ∷ codes "permission denied for schema "
    ∷ codes "permission denied for sequence "
    ∷ codes "permission denied for function "
    ∷ codes "permission denied for database "
    ∷ []

abbrev pub push_dots : Option Chars → Option Chars
push_dots none = none
push_dots (some s) = some (s ++ dots)

-- The place is looked for in the text in lower case, and cut in the text itself.
unfoldable pub replace_denied : (Chars → Chars) → List Chars → Chars → Option Chars
unfolding split_at truncate
replace_denied to_lowercase [] s = some s
replace_denied to_lowercase (kind ∷ kinds) s =
    let rest = replace_denied to_lowercase kinds s in
    elim (split_at kind (to_lowercase s)) [
      | some (before, behind) ↦ push_dots (truncate (len before + len kind) s)
      | none ↦ rest
    ]

unfoldable pub replace_encoding : Chars → Chars
unfolding split_at
replace_encoding s = elim (split_at (codes "byte sequence for encoding") s) [
  | none ↦ s
  | some (before, rest) ↦ before ++ codes "byte sequence for encoding ..."
]

unfoldable pub replace_word_patterns : (Chars → Chars) → Chars → Option Chars
unfolding replace_numbers replace_input_syntax replace_denied replace_encoding
replace_word_patterns to_lowercase s =
    and_then (replace_denied to_lowercase denied (replace_input_syntax (replace_numbers s)))
      (λ result. some (replace_encoding result))

-- `truncate` at the first " at character "
unfoldable pub drop_position : Chars → Chars
unfolding split_at
drop_position s = elim (split_at (codes " at character ") s) [
  | none ↦ s
  | some (before, rest) ↦ before
]

-- Steps 1 to 5
unfoldable pub replace_all_quoted : Chars → Chars
unfolding replace_quoted replace_delimited drop_position
replace_all_quoted message =
    let identifiers = replace_quoted (drop_position message) b'"' (dotted b'"' b'"') in
    let values = replace_quoted identifiers 39 (dotted 39 39) in
    let arguments = replace_delimited values b'(' b')' (dotted b'(' b')') in
    replace_delimited arguments b'[' b']' (dotted b'[' b']')

-- A truncation that is needed, and may panic.
unfoldable pub cut_to : ℕ → Chars → Option Chars
unfolding truncate
cut_to n s = if ltb n (len s) then truncate n s else some s

unfoldable pub normalize_error : (Chars → Chars) → Chars → Option Chars
unfolding replace_word_patterns cut_to replace_all_quoted
normalize_error to_lowercase message =
    and_then (replace_word_patterns to_lowercase (replace_all_quoted message))
      (cut_to max_log_message_len)
