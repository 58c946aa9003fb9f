-- ===== src/Collector/Texts.antt =====
-- What the log collector calls of the standard library's `str`, written out for texts that are lists of
-- code points. A position counts code points; `truncate` counts the bytes of UTF-8, and where these end
-- within a character the code panics: the result is `none`.
use Prim.Native.Char.{Char, char, nul, IsLt}
use Prim.Native.Nat.{compare, Ordering}
use Prim.Native.String
use rpglot.Prelude.{
  ℕ, zero, suc, ◌+◌, ◌-◌, ◌*◌, ◌/◌, ◌%◌, ◌^◌, ◌≤◌, ◌<◌, Bool, true, false, ◌&&◌, ◌||◌, Option, none,
  some, List, [], ◌∷◌, ◌++◌, ◌≡◌, refl, arith, String, ltb, leb, ◌==◌, if◌then◌else◌,
}
use rpglot.Prelude.Int.{ℤ, pos, negsuc}
use rpglot.Prelude.Text.{is_ascii_digit}

abbrev pub Chars : Type 0
Chars = List ℕ

abbrev Scalar : Ordering → Ordering → Ordering → Type 0
Scalar Ordering.lt b c = Unit
Scalar Ordering.eq Ordering.lt c = IsLt c
Scalar Ordering.eq Ordering.eq c = ⊥
Scalar Ordering.eq Ordering.gt c = ⊥
Scalar Ordering.gt Ordering.lt c = IsLt c
Scalar Ordering.gt Ordering.eq c = ⊥
Scalar Ordering.gt Ordering.gt c = ⊥

abbrev pub is_empty : Chars → Bool
is_empty [] = true
is_empty (c ∷ s) = false

unfoldable pub same_chars : Chars → Chars → Bool
same_chars [] [] = true
same_chars [] (d ∷ t) = false
same_chars (c ∷ s) [] = false
same_chars (c ∷ s) (d ∷ t) = c == d && same_chars s t

pub same_chars-path : (s t : Chars) → same_chars s t ≡ true → s ≡ t
unfolding same_chars
same_chars-path [] [] h = refl
same_chars-path [] (d ∷ t) h = cc
same_chars-path (c ∷ s) [] h = cc
same_chars-path (c ∷ s) (d ∷ t) h = ground (arith, same_chars-path s t)

pub same_chars_refl : (s : Chars) → same_chars s s ≡ true
unfolding same_chars
same_chars_refl [] = refl
same_chars_refl (c ∷ s) = ground (arith, same_chars_refl s)

-- The bytes of a character in UTF-8.
unfoldable pub len_utf8 : ℕ → ℕ
len_utf8 c = if ltb c 128 then 1 else if ltb c 2048 then 2 else if ltb c 65536 then 3 else 4

unfoldable pub encode_utf8 : ℕ → List ℕ
encode_utf8 c =
    if ltb c 128
    then c ∷ []
    else if ltb c 2048
    then (192 + c / 64) ∷ (128 + c % 64) ∷ []
    else if ltb c 65536
    then (224 + c / 4096) ∷ (128 + c / 64 % 64) ∷ (128 + c % 64) ∷ []
    else (240 + c / 262144) ∷ (128 + c / 4096 % 64) ∷ (128 + c / 64 % 64) ∷ (128 + c % 64) ∷ []

-- `as_bytes()`
unfoldable pub as_bytes : Chars → List ℕ
as_bytes [] = []
as_bytes (c ∷ s) = encode_utf8 c ++ as_bytes s

-- `len()`
unfoldable pub len : Chars → ℕ
len [] = 0
len (c ∷ s) = len_utf8 c + len s

abbrev pub and_then : {A B : Type 0} → Option A → (A → Option B) → Option B
and_then none next = none
and_then (some a) next = next a

abbrev pub map_option : {A B : Type 0} → (A → B) → Option A → Option B
map_option f none = none
map_option f (some a) = some (f a)

pub some_injective : {A : Type 0} {a b : A} → ◌≡◌ {A = Option A} (some a) (some b) → a ≡ b
some_injective h = cc h

pub and_then-eq-some :
    {A B : Type 0} (o : Option A) (next : A → Option B) {b : B}
    → and_then o next ≡ some b
    → (a : A) × (o ≡ some a) × (next a ≡ some b)
and_then-eq-some none next h = cc
and_then-eq-some (some a) next h = (a, refl, h)

pub map_option-eq-some :
    {A B : Type 0} (f : A → B) (o : Option A) {b : B}
    → map_option f o ≡ some b
    → (a : A) × (o ≡ some a) × (f a ≡ b)
map_option-eq-some f none h = cc
map_option-eq-some f (some a) h = (a, refl, cc)

abbrev pub or_else : {A : Type 0} → Option A → Option A → Option A
or_else none other = other
or_else (some a) other = some a

abbrev pub unwrap_or : {A : Type 0} → Option A → A → A
unwrap_or none other = other
unwrap_or (some a) other = a

abbrev cons : ℕ → Option Chars → Option Chars
cons c none = none
cons c (some s) = some (c ∷ s)

-- `truncate(new_len)`
unfoldable pub truncate : ℕ → Chars → Option Chars
unfolding len_utf8
truncate n [] = some []
truncate n (c ∷ s) =
    let rest = truncate (n - len_utf8 c) s in
    if n == 0 then some [] else if leb (len_utf8 c) n then cons c rest else none

-- A text that fits is whole.
pub truncate_fits : (n : ℕ) (s : Chars) → len s ≤ n → truncate n s ≡ some s
unfolding truncate len len_utf8
truncate_fits n [] h = refl
truncate_fits n (c ∷ s) h = ground (arith, truncate_fits (n - len_utf8 c) s)

pub truncate-len : (n : ℕ) (s t : Chars) → truncate n s ≡ some t → len t ≤ n
unfolding truncate len len_utf8
truncate-len n [] [] h = ground arith
truncate-len n [] (d ∷ t) h = cc
truncate-len n (c ∷ s) [] h = ground arith
truncate-len n (c ∷ s) (d ∷ t) h = ground (arith, truncate-len (n - len_utf8 c) s t)

-- A text that the limit cuts within a character.
pub truncate_within :
    (n : ℕ) (s : Chars) (c : ℕ) (rest : Chars)
    → len s < n
    → n < len s + len_utf8 c
    → truncate n (s ++ c ∷ rest) ≡ none
unfolding truncate len len_utf8
truncate_within n [] c rest start ends = ground arith
truncate_within n (d ∷ s) c rest start ends =
    ground (arith, truncate_within (n - len_utf8 d) s c rest)

-- `char::is_whitespace`
abbrev pub is_whitespace : ℕ → Bool
is_whitespace c =
    (leb 9 c && leb c 13)
    || (c == 32
        || (c == 133
            || (c == 160
                || (c == 5760
                    || ((leb 8192 c && leb c 8202)
                        || (c == 8232
                            || (c == 8233 || (c == 8239 || (c == 8287 || c == 12288)))))))))

unfoldable pub trim_start : Chars → Chars
trim_start [] = []
trim_start (c ∷ s) = let rest = trim_start s in if is_whitespace c then rest else c ∷ s

unfoldable pub trim_end : Chars → Chars
trim_end [] = []
trim_end (c ∷ s) =
    let rest = trim_end s in if is_empty rest && is_whitespace c then [] else c ∷ rest

unfoldable pub trim : Chars → Chars
unfolding trim_start trim_end
trim s = trim_start (trim_end s)

unfoldable pub strip_prefix : Chars → Chars → Option Chars
strip_prefix [] s = some s
strip_prefix (p ∷ pattern) [] = none
strip_prefix (p ∷ pattern) (c ∷ s) =
    let rest = strip_prefix pattern s in if p == c then rest else none

-- The text before and the text behind the first place of a pattern, without it: what `find` and slices
-- at the position give.
unfoldable pub split_at : Chars → Chars → Option (Chars × Chars)
unfolding strip_prefix
split_at pattern [] = elim (strip_prefix pattern []) [ none ↦ none | some rest ↦ some ([], rest) ]
split_at pattern (c ∷ s) =
    let later = split_at pattern s in
    elim (strip_prefix pattern (c ∷ s)) [
      | some rest ↦ some ([], rest)
      | none ↦ elim later [ none ↦ none | some (before, rest) ↦ some (c ∷ before, rest) ]
    ]

abbrev pub is_some : {A : Type 0} → Option A → Bool
is_some none = false
is_some (some a) = true

-- `contains`
unfoldable pub contains : Chars → Chars → Bool
unfolding split_at
contains pattern s = is_some (split_at pattern s)

unfoldable pub take_while : (ℕ → Bool) → Chars → Chars
take_while test [] = []
take_while test (c ∷ s) = let rest = take_while test s in if test c then c ∷ rest else []

-- What stands behind the last character that fails a test.
unfoldable pub trailing : (ℕ → Bool) → Chars → Chars
trailing test [] = []
trailing test (c ∷ s) =
    let rest = trailing test s in if leb (len s) (len rest) && test c then c ∷ rest else rest

-- `parse::<i64>().ok()`
unfoldable pub digits : ℕ → Chars → Option ℕ
digits acc [] = some acc
digits acc (c ∷ s) =
    let rest = digits (acc * 10 + (c - b'0')) s in if is_ascii_digit c then rest else none

abbrev positive : Option ℕ → Option ℤ
positive none = none
positive (some n) = if ltb n (2 ^ 63) then some (pos n) else none

abbrev negative : Option ℕ → Option ℤ
negative none = none
negative (some zero) = some (pos 0)
negative (some (suc n)) = if ltb n (2 ^ 63) then some (negsuc n) else none

unfoldable pub parse_i64 : Chars → Option ℤ
unfolding digits
parse_i64 [] = none
parse_i64 (c ∷ []) = if is_ascii_digit c then positive (digits 0 (c ∷ [])) else none
parse_i64 (c ∷ d ∷ s) =
    if c == b'-'
    then negative (digits 0 (d ∷ s))
    else positive (digits 0 (if c == b'+' then d ∷ s else c ∷ d ∷ s))

-- The `String` of a text.
with_proof : (n : ℕ) (a b c : Ordering) → (Scalar a b c → Char) → Char
with_proof n Ordering.lt b c make = make tt
with_proof n Ordering.eq Ordering.lt Ordering.lt make = make tt
with_proof n Ordering.gt Ordering.lt Ordering.lt make = make tt
with_proof n a b c make = nul

char_of : ℕ → Char
unfolding with_proof
char_of n =
    with_proof n (compare n 55296) (compare 57343 n) (compare n 1114112) (λ valid. char n valid)

unfoldable pub text_of : Chars → String
unfolding char_of
text_of [] = Prim.Native.String.[]
text_of (c ∷ s) = Prim.Native.String.◌∷◌ (char_of c) (text_of s)
