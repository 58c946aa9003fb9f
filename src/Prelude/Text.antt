-- ===== src/Prelude/Text.antt =====
-- Texts as the code points that the source walks over.
use Prim.Native.Char.{code}
use Prim.Native.Nat.{ℕ}
use Prim.Native.String.{String}
use Prim.Native.String.compare
use text.Mathlib.Text
use text.Mathlib.TextEquality.{eq_iff}
use mathlib.Core.Path.{◌≡◌}
use mathlib.Core.Bool.{Bool, true, false, ◌&&◌}
use mathlib.Core.Option.{Option, none, some}
use mathlib.Core.List.{List, [], ◌∷◌}
use rpglot.Prelude.Tests.{leb, ◌==◌}

abbrev pub codes : String → List ℕ
codes String.[] = []
codes (String.◌∷◌ c s) = code c ∷ codes s

abbrev pub is_prefix : List ℕ → List ℕ → Bool
is_prefix [] s = true
is_prefix (p ∷ ps) [] = false
is_prefix (p ∷ ps) (c ∷ cs) = p == c && is_prefix ps cs

-- `s.starts_with(prefix)`
abbrev pub starts_with : String → String → Bool
starts_with s prefix = is_prefix (codes prefix) (codes s)

-- `s.chars().last()`
abbrev pub last_code : List ℕ → Option ℕ
last_code [] = none
last_code (c ∷ []) = some c
last_code (c ∷ d ∷ cs) = last_code (d ∷ cs)

abbrev pub is_ascii_digit : ℕ → Bool
is_ascii_digit c = leb b'0' c && leb c b'9'

abbrev pub same_text : String → String → Bool
same_text s t = Text.is_eq (Prim.Native.String.compare s t)

abbrev pub text_le : String → String → Bool
text_le s t = Text.is_le (Prim.Native.String.compare s t)

-- Texts that are found the same are equal.
pub same_text-path : (s t : String) → same_text s t ≡ true → s ≡ t
same_text-path s t h = (eq_iff s t).0 h
