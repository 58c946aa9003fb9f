-- ===== src/Tests/Normalize.antt =====
-- Messages with identifiers and apostrophes.
use rpglot.Prelude.{ℕ, List, [], ◌∷◌, ◌++◌, ◌≡◌, refl, arith}
use rpglot.Prelude.Text.{codes}
use rpglot.Collector.Normalize.{dotted, replace_quoted, replace_delimited}
use rpglot.Collector.Normalize.Quotes.{replace_idempotent, unclosed_loses}

abbrev message : List ℕ
message = codes "relation \"users\" (oid 5) it's"

replace_idempotent_example :
    (replace_quoted (replace_quoted message b'"' (dotted b'"' b'"')) b'"' (dotted b'"' b'"')
      ≡ replace_quoted message b'"' (dotted b'"' b'"'))
    × (replace_delimited
          (replace_delimited message b'(' b')' (dotted b'(' b')'))
          b'('
          b')'
          (dotted b'(' b')')
        ≡ replace_delimited message b'(' b')' (dotted b'(' b')'))
replace_idempotent_example = replace_idempotent message b'"' b'(' b')' (ground arith) (ground arith)

-- "can't open" becomes "can'".
unclosed_loses_example :
    replace_quoted (codes "can" ++ 39 ∷ codes "t open") 39 (dotted 39 39) ≡ codes "can" ++ 39 ∷ []
unclosed_loses_example = unclosed_loses 39 (dotted 39 39) (codes "can") (codes "t open") refl refl
