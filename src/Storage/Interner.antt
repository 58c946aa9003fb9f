-- ===== src/Storage/Interner.antt =====
-- crates/rpglot-core/src/storage/interner.rs. The hash map is the list of its entries, and a key is
-- looked up at its first entry. `xxh3_64` is not code of the repository: it is a parameter.
pub mod Laws
use rpglot.Prelude.{
  ℕ, String, Bool, Option, none, some, List, [], ◌∷◌, ◌++◌, ◌==◌, if◌then◌else◌, length,
}

pub record StringInterner : Type 0 where
  pub strings : List (ℕ × String)

unfoldable pub lookup : ℕ → List (ℕ × String) → Option String
lookup k [] = none
lookup k ((h, s) ∷ m) = if h == k then some s else lookup k m

-- `entry(hash).or_insert_with(…)`
unfoldable pub or_insert : ℕ → String → List (ℕ × String) → List (ℕ × String)
unfolding lookup
or_insert k s m = elim (lookup k m) [ none ↦ m ++ (k, s) ∷ [] | some _ ↦ m ]

-- `retain`ed by `used_hashes.contains`
pub keep : (ℕ → Bool) → List (ℕ × String) → List (ℕ × String)
keep used [] = []
keep used ((h, s) ∷ m) = let rest = keep used m in if used h then (h, s) ∷ rest else rest

pub insert_all : List (ℕ × String) → List (ℕ × String) → List (ℕ × String)
insert_all m [] = m
insert_all m ((h, s) ∷ other) = insert_all (or_insert h s m) other

unfoldable pub new : StringInterner
new = record { strings = [] }

unfoldable pub intern : (String → ℕ) → StringInterner → String → ℕ × StringInterner
unfolding or_insert
intern xxh3_64 i s = let hash = xxh3_64 s in (hash, record { strings = or_insert hash s i.strings })

pub resolve : StringInterner → ℕ → Option String
unfolding lookup
resolve i hash = lookup hash i.strings

pub clear : StringInterner → StringInterner
clear i = record { strings = [] }

unfoldable pub merge : StringInterner → StringInterner → StringInterner
unfolding insert_all or_insert
merge i other = record { strings = insert_all i.strings other.strings }

unfoldable pub filter : StringInterner → (ℕ → Bool) → StringInterner
unfolding keep
filter i used = record { strings = keep used i.strings }

pub len : StringInterner → ℕ
len i = length i.strings

pub is_empty : StringInterner → Bool
unfolding len
is_empty i = len i == 0
