-- ===== src/Storage/Interner/Laws.antt =====
-- What a hash resolves to after each operation of the interner.
use rpglot.Prelude.{
  ℕ, String, Bool, Option, none, some, List, [], ◌∷◌, ◌++◌, ◌≡◌, refl, arith, ◌==◌, if◌then◌else◌,
  Option-cases,
}
use rpglot.Storage.Interner.{
  StringInterner, lookup, or_insert, keep, insert_all, intern, resolve, merge, filter,
}

-- `a`, or else `b`
abbrev pub or_else : Option String → Option String → Option String
or_else (some s) b = some s
or_else none b = b

lookup-append :
    (k : ℕ) (m n : List (ℕ × String)) → lookup k (m ++ n) ≡ or_else (lookup k m) (lookup k n)
unfolding lookup
lookup-append k [] n = refl
lookup-append k ((h, s) ∷ m) n = ground (arith, lookup-append k m n)

lookup-or_insert :
    (k j : ℕ) (s : String) (m : List (ℕ × String))
    → lookup j (or_insert k s m) ≡ or_else (lookup j m) (if k == j then some s else none)
unfolding or_insert lookup
lookup-or_insert k j s m =
    ground (arith, lookup-append j m ((k, s) ∷ []), Option-cases (lookup k m))

lookup-insert_all :
    (k : ℕ) (m n : List (ℕ × String))
    → lookup k (insert_all m n) ≡ or_else (lookup k m) (lookup k n)
unfolding insert_all lookup
lookup-insert_all k m [] = ground arith
lookup-insert_all k m ((h, s) ∷ n) =
    ground (arith, lookup-insert_all k (or_insert h s m) n, lookup-or_insert h k s m)

lookup-keep :
    (k : ℕ) (used : ℕ → Bool) (m : List (ℕ × String))
    → lookup k (keep used m) ≡ (if used k then lookup k m else none)
unfolding lookup keep
lookup-keep k used [] = ground arith
lookup-keep k used ((h, s) ∷ m) = ground (arith, lookup-keep k used m)

resolve-merge :
    (i other : StringInterner) (hash : ℕ)
    → resolve (merge i other) hash ≡ or_else (resolve i hash) (resolve other hash)
unfolding resolve merge
resolve-merge i other hash = lookup-insert_all hash i.strings other.strings

pub resolve-filter :
    (i : StringInterner) (used : ℕ → Bool) (hash : ℕ)
    → resolve (filter i used) hash ≡ (if used hash then resolve i hash else none)
unfolding resolve filter
resolve-filter i used hash = lookup-keep hash used i.strings

resolve-intern :
    (xxh3_64 : String → ℕ) (i : StringInterner) (s : String) (hash : ℕ)
    → resolve (intern xxh3_64 i s).1 hash
      ≡ or_else (resolve i hash) (if (intern xxh3_64 i s).0 == hash then some s else none)
unfolding resolve intern
resolve-intern xxh3_64 i s hash = lookup-or_insert (xxh3_64 s) hash s i.strings

-- A merge keeps every string of the first interner, and adds those of the second that it lacks. A filter
-- keeps the strings whose hashes are used, and no other. What `intern` returns resolves to the string,
-- unless another string with that hash came first, and the other hashes resolve as before.
pub resolve_after :
    (xxh3_64 : String → ℕ) (used : ℕ → Bool) (i other : StringInterner) (s : String) (hash : ℕ)
    → (resolve (merge i other) hash ≡ or_else (resolve i hash) (resolve other hash))
      × (resolve (filter i used) hash ≡ (if used hash then resolve i hash else none))
      × (resolve (intern xxh3_64 i s).1 hash
          ≡ or_else (resolve i hash) (if (intern xxh3_64 i s).0 == hash then some s else none))
resolve_after xxh3_64 used i other s hash =
    (resolve-merge i other hash, resolve-filter i used hash, resolve-intern xxh3_64 i s hash)
