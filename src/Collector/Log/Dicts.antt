-- ===== src/Collector/Log/Dicts.antt =====
-- The size of a map after a write or a removal.
use rpglot.Prelude.{ℕ, ◌+◌, ◌≤◌, Bool, some, List, [], ◌∷◌, ◌≡◌, arith, length, if◌then◌else◌}
use rpglot.Prelude.Sort.{sum_of}
use rpglot.Collector.Log.{dict_get, dict_set, dict_remove}

module _ {K V : Type 0} (same : K → K → Bool) where
  pub length-dict_set :
      (key : K) (new : V) (entries : List (K × V))
      → length (dict_set same key new entries) ≤ length entries + 1
  unfolding dict_set
  length-dict_set key new [] = omega arith
  length-dict_set key new ((other, old) ∷ entries) = ground (arith, length-dict_set key new entries)

  pub length-dict_set_known :
      (key : K) (new old : V) (entries : List (K × V))
      → dict_get same key entries ≡ some old
      → length (dict_set same key new entries) ≡ length entries
  unfolding dict_set dict_get
  length-dict_set_known key new old [] h = cc
  length-dict_set_known key new old ((other, w) ∷ entries) h =
      ground (arith, length-dict_set_known key new old entries)

  -- How many entries a key has.
  abbrev is_at : K → K × V → ℕ
  is_at key entry = if same entry.0 key then 1 else 0

  unfoldable pub entries_at : K → List (K × V) → ℕ
  unfolding sum_of
  entries_at key entries = sum_of (λ entry. if same entry.0 key then 1 else 0) entries

  pub length-dict_remove :
      (key : K) (entries : List (K × V))
      → 1 ≤ entries_at key entries
      → length (dict_remove same key entries) + 1 ≡ length entries
  unfolding dict_remove entries_at
  length-dict_remove key [] h = absurd (omega arith)
  length-dict_remove key ((other, w) ∷ entries) h = ground (arith, length-dict_remove key entries)
