-- ===== src/Collector/Normalize/Quotes.antt =====
-- What the replacement of quotes and brackets does to a text.
use rpglot.Prelude.{
  ℕ, Bool, true, false, not, ◌&&◌, Option, none, some, List, [], ◌∷◌, ◌++◌, ◌==◌, ◌≡◌, ◌≢◌, refl,
  ap, ◌∙◌, arith, Bool-cases, inl, inr,
}
use rpglot.Collector.Normalize.{
  dotted, quoted_loop, replace_quoted, delimited_loop, replace_delimited,
}

-- A text without a character.
abbrev pub lacks : ℕ → List ℕ → Bool
lacks c [] = true
lacks c (d ∷ chars) = not (d == c) && lacks c chars

dotted_kept :
    (quote : ℕ) (rest : List ℕ)
    → quote ≢ b'.'
    → quoted_loop quote (dotted quote quote) none (dotted quote quote ++ rest)
      ≡ dotted quote quote ++ quoted_loop quote (dotted quote quote) none rest
unfolding quoted_loop
dotted_kept quote rest h =
    let same : (quote == quote) ≡ true = ground arith in
    let dot : (b'.' == quote) ≡ false = ground arith in rw (same, dot) refl

empty_kept :
    (quote : ℕ) (rest : List ℕ)
    → quoted_loop quote (dotted quote quote) none (quote ∷ quote ∷ rest)
      ≡ quote ∷ quote ∷ quoted_loop quote (dotted quote quote) none rest
unfolding quoted_loop
empty_kept quote rest = let same : (quote == quote) ≡ true = ground arith in rw same refl

quoted_again :
    (quote : ℕ) (inside : Option Bool) (s : List ℕ)
    → quote ≢ b'.'
    → quoted_loop quote (dotted quote quote) none (quoted_loop quote (dotted quote quote) inside s)
      ≡ quoted_loop quote (dotted quote quote) inside s
unfolding quoted_loop
quoted_again quote none [] h = refl
quoted_again quote (some passed) [] h = ground arith
quoted_again quote none (c ∷ s) h = elim (Bool-cases (c == quote)) [
  | inl begun ↦ rw begun (quoted_again quote (some false) s h)
  | inr other ↦ rw other (rw other (ap (◌∷◌ c) (quoted_again quote none s h)))
]
quoted_again quote (some true) (c ∷ s) h =
    let rest = quoted_loop quote (dotted quote quote) none s in
    elim (Bool-cases (c == quote)) [
      | inl ended ↦ rw ended (
          dotted_kept quote rest h
          ∙ ap (λ l. dotted quote quote ++ l) (quoted_again quote none s h))
      | inr more ↦ rw more (quoted_again quote (some true) s h)
    ]
quoted_again quote (some false) (c ∷ s) h =
    let rest = quoted_loop quote (dotted quote quote) none s in
    elim (Bool-cases (c == quote)) [
      | inl ended ↦
          rw ended
            (empty_kept quote rest ∙ ap (λ l. quote ∷ quote ∷ l) (quoted_again quote none s h))
      | inr more ↦ rw more (quoted_again quote (some true) s h)
    ]

quoted_idempotent :
    (s : List ℕ) (quote : ℕ)
    → quote ≢ b'.'
    → replace_quoted (replace_quoted s quote (dotted quote quote)) quote (dotted quote quote)
      ≡ replace_quoted s quote (dotted quote quote)
unfolding replace_quoted
quoted_idempotent s quote h = quoted_again quote none s h

delimited_kept :
    (opening closing : ℕ) (rest : List ℕ)
    → closing ≢ b'.'
    → delimited_loop opening closing (dotted opening closing) false (dotted opening closing ++ rest)
      ≡ dotted opening closing ++ delimited_loop opening closing (dotted opening closing) false rest
unfolding delimited_loop
delimited_kept opening closing rest h =
    let same : (opening == opening) ≡ true = ground arith in
    let same₁ : (closing == closing) ≡ true = ground arith in
    let dot : (b'.' == closing) ≡ false = ground arith in rw (same, same₁, dot) refl

delimited_again :
    (opening closing : ℕ) (inside : Bool) (s : List ℕ)
    → closing ≢ b'.'
    → delimited_loop opening closing
        (dotted opening closing)
        false
        (delimited_loop opening closing (dotted opening closing) inside s)
      ≡ delimited_loop opening closing (dotted opening closing) inside s
unfolding delimited_loop
delimited_again opening closing false [] h = refl
delimited_again opening closing true [] h = ground arith
delimited_again opening closing false (c ∷ s) h = elim (Bool-cases (c == opening)) [
  | inl begun ↦ rw begun (delimited_again opening closing true s h)
  | inr other ↦ rw other (rw other (ap (◌∷◌ c) (delimited_again opening closing false s h)))
]
delimited_again opening closing true (c ∷ s) h =
    let rest = delimited_loop opening closing (dotted opening closing) false s in
    elim (Bool-cases (c == closing)) [
      | inl ended ↦ rw ended (
          delimited_kept opening closing rest h
          ∙ ap (λ l. dotted opening closing ++ l) (delimited_again opening closing false s h))
      | inr more ↦ rw more (delimited_again opening closing true s h)
    ]

delimited_idempotent :
    (s : List ℕ) (opening closing : ℕ)
    → closing ≢ b'.'
    → replace_delimited
        (replace_delimited s opening closing (dotted opening closing))
        opening
        closing
        (dotted opening closing)
      ≡ replace_delimited s opening closing (dotted opening closing)
unfolding replace_delimited
delimited_idempotent s opening closing h = delimited_again opening closing false s h

-- Replacing what is quoted or delimited a second time changes nothing, where the quote and the closing
-- delimiter are no dots.
pub replace_idempotent :
    (s : List ℕ) (quote opening closing : ℕ)
    → quote ≢ b'.'
    → closing ≢ b'.'
    → (replace_quoted (replace_quoted s quote (dotted quote quote)) quote (dotted quote quote)
        ≡ replace_quoted s quote (dotted quote quote))
      × (replace_delimited
            (replace_delimited s opening closing (dotted opening closing))
            opening
            closing
            (dotted opening closing)
          ≡ replace_delimited s opening closing (dotted opening closing))
replace_idempotent s quote opening closing h k =
    (quoted_idempotent s quote h, delimited_idempotent s opening closing k)

unclosed :
    (quote : ℕ) (replacement : List ℕ) (passed : Bool) (t : List ℕ)
    → lacks quote t ≡ true
    → quoted_loop quote replacement (some passed) t ≡ quote ∷ []
unfolding quoted_loop
unclosed quote replacement passed [] h = refl
unclosed quote replacement passed (c ∷ t) h = ground (arith, unclosed quote replacement true t)

-- A text with one quote, such as an apostrophe, ends with it: what stands behind is lost.
pub unclosed_loses :
    (quote : ℕ) (replacement before behind : List ℕ)
    → lacks quote before ≡ true
    → lacks quote behind ≡ true
    → replace_quoted (before ++ quote ∷ behind) quote replacement ≡ before ++ quote ∷ []
unfolding replace_quoted quoted_loop
unclosed_loses quote replacement [] behind h k =
    ground (arith, unclosed quote replacement false behind k)
unclosed_loses quote replacement (c ∷ before) behind h k =
    ground (arith, unclosed_loses quote replacement before behind)
