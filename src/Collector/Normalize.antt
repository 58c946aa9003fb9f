-- ===== src/Collector/Normalize.antt =====
-- collector/log_collector/normalize.rs: what is quoted or in brackets is replaced, and a number behind a
-- word. A text is the list of its characters' codes.
pub mod Quotes
pub mod Patterns
pub mod Classify
pub mod Fuel
use rpglot.Prelude.{
  ℕ, zero, suc, ◌+◌, Bool, true, false, ◌||◌, Option, none, some, List, [], ◌∷◌, ◌++◌, length, take,
  drop, ◌==◌, if◌then◌else◌,
}
use rpglot.Prelude.Text.{is_prefix, is_ascii_digit}

abbrev pub dots : List ℕ
dots = b'.' ∷ b'.' ∷ b'.' ∷ []

-- The replacement that normalize_error gives for a pair of delimiters.
abbrev pub dotted : ℕ → ℕ → List ℕ
dotted opening closing = opening ∷ b'.' ∷ b'.' ∷ b'.' ∷ closing ∷ []

-- Both loops of replace_quoted. Inside quotes it is known whether a character was passed; a quote that
-- is not closed is pushed when the characters are used up.
unfoldable pub quoted_loop : ℕ → List ℕ → Option Bool → List ℕ → List ℕ
quoted_loop quote replacement none [] = []
quoted_loop quote replacement (some passed) [] = quote ∷ []
quoted_loop quote replacement none (c ∷ chars) =
    let inside = quoted_loop quote replacement (some false) chars in
    let rest = quoted_loop quote replacement none chars in if c == quote then inside else c ∷ rest
quoted_loop quote replacement (some passed) (c ∷ chars) =
    let inside = quoted_loop quote replacement (some true) chars in
    let rest = quoted_loop quote replacement none chars in
    if c == quote then (if passed then replacement ++ rest else quote ∷ quote ∷ rest) else inside

unfoldable pub replace_quoted : List ℕ → ℕ → List ℕ → List ℕ
replace_quoted s quote replacement = quoted_loop quote replacement none s

-- Both loops of replace_delimited, inside the delimiters or not.
unfoldable pub delimited_loop : ℕ → ℕ → List ℕ → Bool → List ℕ → List ℕ
delimited_loop opening closing replacement false [] = []
delimited_loop opening closing replacement true [] = opening ∷ []
delimited_loop opening closing replacement false (c ∷ chars) =
    let inside = delimited_loop opening closing replacement true chars in
    let rest = delimited_loop opening closing replacement false chars in
    if c == opening then inside else c ∷ rest
delimited_loop opening closing replacement true (c ∷ chars) =
    let inside = delimited_loop opening closing replacement true chars in
    let rest = delimited_loop opening closing replacement false chars in
    if c == closing then replacement ++ rest else inside

unfoldable pub replace_delimited : List ℕ → ℕ → ℕ → List ℕ → List ℕ
replace_delimited s opening closing replacement = delimited_loop opening closing replacement false s

-- `s.find(pattern)`
unfoldable pub find : List ℕ → List ℕ → Option ℕ
find pattern [] = if is_prefix pattern [] then some 0 else none
find pattern (c ∷ chars) =
    let later = find pattern chars in
    if is_prefix pattern (c ∷ chars)
    then some 0
    else elim later [ none ↦ none | some pos ↦ some (suc pos) ]

unfoldable pub starts_with_digit : List ℕ → Bool
starts_with_digit [] = false
starts_with_digit (c ∷ chars) = is_ascii_digit c

unfoldable pub skip_while : (ℕ → Bool) → List ℕ → List ℕ
skip_while test [] = []
skip_while test (c ∷ chars) = let rest = skip_while test chars in if test c then rest else c ∷ chars

-- What replace_word_number and replace_word_float share: the number ends with the characters of a test.
unfoldable pub replace_word : (ℕ → Bool) → List ℕ → List ℕ → List ℕ
replace_word test s prefix = elim (find prefix s) [
  | none ↦ s
  | some pos ↦
      let rest = drop (pos + length prefix) s in
      if starts_with_digit rest
      then take (pos + length prefix) s ++ (dots ++ skip_while test rest)
      else s
]

unfoldable pub replace_word_number : List ℕ → List ℕ → List ℕ
replace_word_number s prefix = replace_word is_ascii_digit s prefix

unfoldable pub replace_word_float : List ℕ → List ℕ → List ℕ
replace_word_float s prefix = replace_word (λ c. is_ascii_digit c || c == b'.') s prefix
